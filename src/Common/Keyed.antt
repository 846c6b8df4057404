-- ===== src/Common/Keyed.antt =====
-- JavaScript's `Record<string, V>` as an association list, and arrays of strings as sets.
-- A key keeps its place when it is assigned again, and a new key goes to the end.
use Prim.Native.String.{String}
use text.Mathlib.Text.{◌==◌ as str_eq}
use text.Mathlib.TextEquality.{eq_iff}
use Prim.Native.Nat.{◌+◌, ◌≤◌, ◌<◌}
use mathlib.Core.Path.{◌≡◌, refl}
use mathlib.Core.Bool.{Bool, true, false, ◌||◌}
use mathlib.Core.Option.{Option, none, some}
use mathlib.Core.List.{List, [], ◌∷◌, ◌++◌}
use native.Mathlib.Omega.{arith}
use text.Mathlib.TextPositions.{eq_refl}
use mathlib.Core.Logic.{◌≢◌, inl, inr}
use wave_realtime_edge.Common.Tests.{if◌then◌else◌, Bool-cases}
use wave_realtime_edge.Common.Lists.{length}

pub eq_ne : (a b : String) → a ≢ b → str_eq a b ≡ false
eq_ne a b ne = ground (arith, eq_iff a b)

abbrev pub Dict {ℓ} : Type ℓ → Type ℓ
Dict V = List (String × V)

module _ {ℓ} {V : Type ℓ} where
  -- `m[k]`
  unfoldable pub get : String → List (String × V) → Option V
  get k [] = none
  get k ((j, v) ∷ m) = if str_eq j k then some v else get k m

  -- `m[k] = v`
  unfoldable pub put : String → V → List (String × V) → List (String × V)
  put k v [] = (k, v) ∷ []
  put k v ((j, w) ∷ m) = if str_eq j k then (j, v) ∷ m else (j, w) ∷ put k v m

  -- `delete m[k]`
  unfoldable pub del : String → List (String × V) → List (String × V)
  del k [] = []
  del k ((j, w) ∷ m) = let rest = del k m in if str_eq j k then rest else (j, w) ∷ rest

  -- `Object.values(m)`
  unfoldable pub values : List (String × V) → List V
  values [] = []
  values ((j, w) ∷ m) = w ∷ values m

  pub get-put :
      (k j : String) (v : V) (m : List (String × V))
      → get j (put k v m) ≡ (if str_eq k j then some v else get j m)
  unfolding get put
  get-put k j v [] = refl
  get-put k j v ((i, w) ∷ m) = ground (arith, eq_iff k j, eq_iff i k, eq_iff i j, get-put k j v m)

  pub get-del :
      (k j : String) (m : List (String × V))
      → get j (del k m) ≡ (if str_eq k j then none else get j m)
  unfolding get del
  get-del k j [] = ground arith
  get-del k j ((i, w) ∷ m) = ground (arith, eq_iff k j, eq_iff i k, eq_iff i j, get-del k j m)

  pub get-put_self : (k : String) (v : V) (m : List (String × V)) → get k (put k v m) ≡ some v
  get-put_self k v m = rw (get-put k k v m, eq_refl k)

  pub get-put_ne :
      (k j : String) (v : V) (m : List (String × V)) → k ≢ j → get j (put k v m) ≡ get j m
  get-put_ne k j v m ne = rw (get-put k j v m, eq_ne k j ne)

  pub get-del_self : (k : String) (m : List (String × V)) → get k (del k m) ≡ none
  get-del_self k m = rw (get-del k k m, eq_refl k)

  pub get-del_ne : (k j : String) (m : List (String × V)) → k ≢ j → get j (del k m) ≡ get j m
  get-del_ne k j m ne = rw (get-del k j m, eq_ne k j ne)

  pub get-del-none :
      (k j : String) (m : List (String × V)) → get j m ≡ none → get j (del k m) ≡ none
  get-del-none k j m h = elim (Bool-cases (str_eq k j)) [
    | inl e ↦ rw (get-del k j m, e)
    | inr e ↦ rw (get-del k j m, e) h
  ]

  pub length-put-le :
      (k : String) (v : V) (m : List (String × V)) → length (put k v m) ≤ length m + 1
  unfolding put
  length-put-le k v [] = omega arith
  length-put-le k v ((i, w) ∷ m) = ground (arith, length-put-le k v m)

  pub length-put_found :
      (k : String) (v : V) (m : List (String × V)) {w : V}
      → get k m ≡ some w
      → length (put k v m) ≡ length m
  unfolding put get
  length-put_found k v [] {w = u} h = cc
  length-put_found k v ((i, w) ∷ m) {w = u} h = ground (arith, length-put_found k v m {w = u})

  pub length-put-pos : (k : String) (v : V) (m : List (String × V)) → 0 < length (put k v m)
  unfolding put
  length-put-pos k v [] = omega arith
  length-put-pos k v ((i, w) ∷ m) = ground arith

  pub length-del-le : (k : String) (m : List (String × V)) → length (del k m) ≤ length m
  unfolding del
  length-del-le k [] = omega arith
  length-del-le k ((i, w) ∷ m) = ground (arith, length-del-le k m)

  pub length_pos_of_get :
      (k : String) (m : List (String × V)) {v : V} → get k m ≡ some v → 0 < length m
  unfolding get
  length_pos_of_get k [] h = ground arith
  length_pos_of_get k ((j, w) ∷ m) h = omega arith

  pub get_of_length_zero : (k : String) (m : List (String × V)) → length m ≡ 0 → get k m ≡ none
  unfolding get
  get_of_length_zero k [] h = refl
  get_of_length_zero k ((j, w) ∷ m) h = absurd (omega arith)

-- `xs.includes(k)`
unfoldable pub includes : List String → String → Bool
includes [] k = false
includes (x ∷ xs) k = str_eq x k || includes xs k

-- `xs.filter((id) => id !== k)`
unfoldable pub without : String → List String → List String
without k [] = []
without k (x ∷ xs) = let rest = without k xs in if str_eq x k then rest else x ∷ rest

pub includes-append :
    (xs ys : List String) (k : String) → includes (xs ++ ys) k ≡ (includes xs k || includes ys k)
unfolding includes
includes-append [] ys k = refl
includes-append (x ∷ xs) ys k = ground (arith, includes-append xs ys k)

pub includes-push :
    (xs : List String) (j k : String) → includes (xs ++ j ∷ []) k ≡ (includes xs k || str_eq j k)
unfolding includes
includes-push [] j k = ground arith
includes-push (x ∷ xs) j k = ground (arith, includes-push xs j k)

pub includes-without :
    (j k : String) (xs : List String)
    → includes (without j xs) k ≡ (if str_eq j k then false else includes xs k)
unfolding includes without
includes-without j k [] = ground arith
includes-without j k (x ∷ xs) =
    ground (arith, eq_iff j k, eq_iff x j, eq_iff x k, includes-without j k xs)

pub length_pos_of_includes : (xs : List String) (k : String) → includes xs k ≡ true → 0 < length xs
unfolding includes
length_pos_of_includes [] k h = ground arith
length_pos_of_includes (x ∷ xs) k h = omega arith
