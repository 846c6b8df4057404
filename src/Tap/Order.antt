-- ===== src/Tap/Order.antt =====
-- Lists of frames that are what is left of another, in its order.
use wave_realtime_edge.Common.{◌≡◌, refl, ap, subst, List, [], ◌∷◌, ◌++◌, arith, length, drop}
use wave_realtime_edge.Tap.Queue.{TapFrame}

pub data IsSublist : List TapFrame → List TapFrame → Type 0 where
  nothing : IsSublist [] []
  skipped : {xs ys : List TapFrame} (y : TapFrame) → IsSublist xs ys → IsSublist xs (y ∷ ys)
  kept : {xs ys : List TapFrame} (y : TapFrame) → IsSublist xs ys → IsSublist (y ∷ xs) (y ∷ ys)

pub IsSublist-push :
    {xs ys : List TapFrame} (f : TapFrame)
    → IsSublist xs ys
    → IsSublist (xs ++ f ∷ []) (ys ++ f ∷ [])
IsSublist-push f IsSublist.nothing = IsSublist.kept f IsSublist.nothing
IsSublist-push f (IsSublist.skipped y h) = IsSublist.skipped y (IsSublist-push f h)
IsSublist-push f (IsSublist.kept y h) = IsSublist.kept y (IsSublist-push f h)

head_eq : (x y : TapFrame) (xs ys : List TapFrame) → x ∷ xs ≡ y ∷ ys → x ≡ y
head_eq x y xs ys e = cc

-- An element in the middle may go.
without_mid :
    {zs ys : List TapFrame}
    → IsSublist zs ys
    → (hs : List TapFrame) (b : TapFrame) (bs : List TapFrame) → zs ≡ hs ++ b ∷ bs
    → IsSublist (hs ++ bs) ys
without_mid IsSublist.nothing [] b bs e = absurd (let l = ap length e in omega (arith, l))
without_mid IsSublist.nothing (h ∷ hs) b bs e = absurd (let l = ap length e in omega (arith, l))
without_mid (IsSublist.skipped y s) hs b bs e = IsSublist.skipped y (without_mid s hs b bs e)
without_mid (IsSublist.kept {xs} {ys} y s) [] b bs e =
    let t : xs ≡ bs = ap (drop 1) e in IsSublist.skipped y (subst (λ z. IsSublist z ys) t s)
without_mid (IsSublist.kept {xs} {ys} y s) (h ∷ hs) b bs e =
    let t : xs ≡ hs ++ b ∷ bs = ap (drop 1) e in
    let same : y ≡ h = head_eq y h xs (hs ++ b ∷ bs) e in
    subst (λ z. IsSublist (z ∷ (hs ++ bs)) (y ∷ ys)) same
      (IsSublist.kept y (without_mid s hs b bs t))

pub IsSublist-without :
    (hs : List TapFrame) (b : TapFrame) (bs : List TapFrame) {ys : List TapFrame}
    → IsSublist (hs ++ b ∷ bs) ys
    → IsSublist (hs ++ bs) ys
IsSublist-without hs b bs s = without_mid s hs b bs refl
