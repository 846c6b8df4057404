-- ===== src/Whip/Tests/Json.antt =====
-- A concrete text format for the records of the tests: each text and number is written with a mark before
-- each of its parts and a full stop at its end.
use Prim.Native.Char.{Char, code}
use wave_realtime_edge.Common.{
  ℕ, zero, suc, String, ◌≡◌, refl, ap, ◌≢◌, Option, none, some, arith, ◌==◌, if◌then◌else◌,
}
use wave_realtime_edge.Whip.Resource.{count_chars, WhipResource, PartialResource, to_partial}

abbrev bind : {A B : Type 0} → Option (A × String) → (A → String → Option B) → Option B
bind none k = none
bind (some (a, s)) k = k a s

abbrev push : Char → Option (String × String) → Option (String × String)
push c none = none
push c (some (s, rest)) = some (String.◌∷◌ c s, rest)

abbrev next : Option (ℕ × String) → Option (ℕ × String)
next none = none
next (some (n, rest)) = some (suc n, rest)

write_text : String → String → String
write_text String.[] rest = String.◌∷◌ "." rest
write_text (String.◌∷◌ c s) rest = String.◌∷◌ "c" (String.◌∷◌ c (write_text s rest))

read_text : String → Option (String × String)
read_text String.[] = none
read_text (String.◌∷◌ m String.[]) = if code m == 46 then some (String.[], String.[]) else none
read_text (String.◌∷◌ m (String.◌∷◌ c s)) =
    let later = push c (read_text s) in
    if code m == 46 then some (String.[], String.◌∷◌ c s) else later

write_nat : ℕ → String → String
write_nat zero rest = String.◌∷◌ "." rest
write_nat (suc n) rest = String.◌∷◌ "n" (write_nat n rest)

read_nat : String → Option (ℕ × String)
read_nat String.[] = none
read_nat (String.◌∷◌ m s) =
    let later = next (read_nat s) in if code m == 46 then some (0, s) else later

read_text-write_text : (s rest : String) → read_text (write_text s rest) ≡ some (s, rest)
unfolding read_text write_text
read_text-write_text String.[] String.[] = refl
read_text-write_text String.[] (String.◌∷◌ c s) = refl
read_text-write_text (String.◌∷◌ c s) rest = rw (read_text-write_text s rest) refl

read_nat-write_nat : (n : ℕ) (rest : String) → read_nat (write_nat n rest) ≡ some (n, rest)
unfolding read_nat write_nat
read_nat-write_nat zero rest = refl
read_nat-write_nat (suc n) rest = rw (read_nat-write_nat n rest) refl

write_text_nonempty : (s rest : String) → write_text s rest ≢ ""
unfolding write_text
write_text_nonempty String.[] rest h =
    absurd (let e = ap count_chars h in unfold count_chars in omega (arith, e))
write_text_nonempty (String.◌∷◌ c s) rest h =
    absurd (let e = ap count_chars h in unfold count_chars in omega (arith, e))

write_text? : Option String → String → String
write_text? none rest = String.◌∷◌ "?" rest
write_text? (some s) rest = String.◌∷◌ "!" (write_text s rest)

read_text? : String → Option (Option String × String)
read_text? String.[] = none
read_text? (String.◌∷◌ m s) =
    if code m == 63 then some (none, s) else bind (read_text s) (λ a rest. some (some a, rest))

write_nat? : Option ℕ → String → String
write_nat? none rest = String.◌∷◌ "?" rest
write_nat? (some n) rest = String.◌∷◌ "!" (write_nat n rest)

read_nat? : String → Option (Option ℕ × String)
read_nat? String.[] = none
read_nat? (String.◌∷◌ m s) =
    if code m == 63 then some (none, s) else bind (read_nat s) (λ a rest. some (some a, rest))

read_text?-write_text? :
    (o : Option String) (rest : String) → read_text? (write_text? o rest) ≡ some (o, rest)
unfolding read_text? write_text?
read_text?-write_text? none rest = refl
read_text?-write_text? (some s) rest = rw (read_text-write_text s rest) refl

read_nat?-write_nat? :
    (o : Option ℕ) (rest : String) → read_nat? (write_nat? o rest) ≡ some (o, rest)
unfolding read_nat? write_nat?
read_nat?-write_nat? none rest = refl
read_nat?-write_nat? (some n) rest = rw (read_nat-write_nat n rest) refl

pub stringify : WhipResource → String
stringify r = write_text r.session_id (
    write_text r.org (
      write_nat r.started_at (
        write_text? r.room
          (write_text? r.meter (write_nat? r.last_seen_at (write_nat? r.disconnected_since ""))))))

pub parse : String → Option PartialResource
parse s = bind (read_text s) (λ session_id s1. bind (read_text s1) (λ org s2.
    bind (read_nat s2) (λ started_at s3. bind (read_text? s3) (λ room s4.
      bind (read_text? s4) (λ meter s5. bind (read_nat? s5) (λ seen s6.
        bind (read_nat? s6) (λ since s7. some (record {
          session_id? = some session_id;
          org? = some org;
          started_at? = some started_at;
          room? = room;
          meter? = meter;
          last_seen_at? = seen;
          disconnected_since? = since;
        }))))))))

pub parse-stringify : (r : WhipResource) → parse (stringify r) ≡ some (to_partial r)
unfolding parse stringify
parse-stringify r =
    simp (read_text-write_text, read_nat-write_nat, read_text?-write_text?, read_nat?-write_nat?)

pub stringify_nonempty : (r : WhipResource) → stringify r ≢ ""
unfolding stringify
stringify_nonempty r = write_text_nonempty r.session_id _
