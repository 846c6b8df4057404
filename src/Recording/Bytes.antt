-- ===== src/Recording/Bytes.antt =====
-- src/recording-writer.ts: the bytes of the chunk queue, and what takeExact makes of it.
use wave_realtime_edge.Common.{
  ℕ, zero, suc, ◌-◌, ◌≤◌, ◌≡◌, refl, sym, ap, ◌∙◌, inl, inr, List, [], ◌∷◌, ◌++◌, arith, length,
  length-append, take, drop, leb, ◌==◌, Bool-cases, append_assoc,
}
use wave_realtime_edge.Media.Bytes.{length-take}
use wave_realtime_edge.Recording.Writer.{take_exact}

unfoldable pub concat : List (List ℕ) → List ℕ
concat [] = []
concat (xs ∷ xss) = xs ++ concat xss

pub concat-append : (xs ys : List (List ℕ)) → concat (xs ++ ys) ≡ concat xs ++ concat ys
unfolding concat
concat-append [] ys = refl
concat-append (x ∷ xs) ys =
    ap (◌++◌ x) (concat-append xs ys) ∙ sym (append_assoc x (concat xs) (concat ys))

take-append-drop : (n : ℕ) (xs : List ℕ) → take n xs ++ drop n xs ≡ xs
take-append-drop zero xs = refl
take-append-drop (suc n) [] = refl
take-append-drop (suc n) (x ∷ xs) = ap (◌∷◌ x) (take-append-drop n xs)

-- What is taken and what stays are the queue, in order.
pub take_exact-splits :
    (n : ℕ) (q : List (List ℕ)) → (take_exact n q).0 ++ concat (take_exact n q).1 ≡ concat q
unfolding take_exact concat
take_exact-splits n [] = refl
take_exact-splits n (head ∷ rest) = elim (Bool-cases (n == 0)) [
  | inl z ↦ rw (z, take_exact) refl
  | inr nz ↦ elim (Bool-cases (leb (length head) n)) [
    | inl whole ↦
        rw (nz, whole, take_exact)
          (append_assoc head (take_exact (n - length head) rest).0 _
            ∙ ap (◌++◌ head) (take_exact-splits (n - length head) rest))
    | inr part ↦
        rw (nz, part, take_exact)
          (sym (append_assoc (take n head) (drop n head) (concat rest))
            ∙ ap (λ z. z ++ concat rest) (take-append-drop n head))
  ]
]

-- If the queue has that many bytes, as many are taken.
pub length-take_exact :
    (n : ℕ) (q : List (List ℕ)) → n ≤ length (concat q) → length (take_exact n q).0 ≡ n
unfolding take_exact concat
length-take_exact n [] h = omega arith
length-take_exact n (head ∷ rest) h =
    let both = length-append head (concat rest) in
    elim (Bool-cases (n == 0)) [
      | inl z ↦ rw (z, take_exact) (ground arith)
      | inr nz ↦ elim (Bool-cases (leb (length head) n)) [
        | inl whole ↦
            let le : length head ≤ n = ground arith in
            rw (nz, whole, take_exact)
              (length-append head (take_exact (n - length head) rest).0
                ∙ omega (arith, length-take_exact (n - length head) rest (omega arith)))
        | inr part ↦
            let le : n ≤ length head = ground arith in
            rw (nz, part, take_exact) (length-take n head le)
      ]
    ]
