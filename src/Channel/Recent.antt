-- ===== src/Channel/Recent.antt =====
-- The last elements of a list.
use wave_realtime_edge.Common.{
  ℕ, zero, suc, ◌+◌, ◌-◌, ◌≤◌, ◌<◌, ◌≡◌, refl, sym, ap, ◌∙◌, List, [], ◌∷◌, ◌++◌, arith, length,
  length-append, drop,
}

module _ {ℓ} {A : Type ℓ} where
  -- `xs.slice(-n)`, for n of at least 1: the last n elements, or all if there are no more.
  unfoldable pub recent : ℕ → List A → List A
  recent n xs = drop (length xs - n) xs

  drop-drop : (m n : ℕ) (xs : List A) → drop (m + n) xs ≡ drop n (drop m xs)
  drop-drop zero n xs = (let e : 0 + n ≡ n = omega arith in rw e refl)
  drop-drop (suc m) zero [] = (let e : suc m + 0 ≡ suc m = omega arith in rw e refl)
  drop-drop (suc m) (suc n) [] = let e : suc m + suc n ≡ suc (m + suc n) = omega arith in rw e refl
  drop-drop (suc m) n (x ∷ xs) =
      let e : suc m + n ≡ suc (m + n) = omega arith in rw e (drop-drop m n xs)

  length-drop : (n : ℕ) (xs : List A) → length (drop n xs) ≡ length xs - n
  length-drop zero xs = omega arith
  length-drop (suc n) [] = omega arith
  length-drop (suc n) (x ∷ xs) = omega (arith, length-drop n xs)

  drop-append : (n : ℕ) (xs ys : List A) → n ≤ length xs → drop n (xs ++ ys) ≡ drop n xs ++ ys
  drop-append zero xs ys h = refl
  drop-append (suc n) [] ys h = absurd (omega arith)
  drop-append (suc n) (x ∷ xs) ys h = drop-append n xs ys (omega arith)

  pub length-recent : (n : ℕ) (xs : List A) → length (recent n xs) ≡ length xs - (length xs - n)
  unfolding recent
  length-recent n xs = length-drop (length xs - n) xs

  -- The last of the last are the last.
  pub recent-recent : (m n : ℕ) (xs : List A) → n ≤ m → recent n (recent m xs) ≡ recent n xs
  unfolding recent
  recent-recent m n xs le =
      let l = length xs in
      let k = length (drop (l - m) xs) - n in
      let e : (l - m) + k ≡ l - n = omega (arith, length-drop (l - m) xs) in
      sym (drop-drop (l - m) k xs) ∙ ap (λ z. drop z xs) e

  -- All are kept while there is room, and then the oldest goes.
  pub recent-room :
      (n : ℕ) (xs : List A) (x : A)
      → length xs < n
      → recent n xs ++ x ∷ [] ≡ recent n (xs ++ x ∷ [])
  unfolding recent
  recent-room n xs x lt =
      let e : length xs - n ≡ 0 = omega arith in
      let e' : length (xs ++ x ∷ []) - n ≡ 0 = omega (arith, length-append xs (x ∷ [])) in
      ap (λ z. drop z xs ++ x ∷ []) e ∙ sym (ap (λ z. drop z (xs ++ x ∷ [])) e')

  pub recent-full :
      (n : ℕ) (xs : List A) (x : A)
      → n ≤ length xs
      → drop 1 (recent n xs ++ x ∷ []) ≡ recent n (xs ++ x ∷ [])
  unfolding recent
  recent-full n xs x le =
      let k = length xs - n in
      let e : length (xs ++ x ∷ []) - n ≡ k + 1 = omega (arith, length-append xs (x ∷ [])) in
      ap (drop 1) (sym (drop-append k xs (x ∷ []) (omega arith)))
      ∙ sym (drop-drop k 1 (xs ++ x ∷ []))
      ∙ sym (ap (λ z. drop z (xs ++ x ∷ [])) e)
