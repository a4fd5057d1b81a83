-- ===== src/Status/Ring/Refinement.antt =====
-- The circular buffer holds the newest `max_history` entries, in order.
use technician.Common.{
  ℕ, zero, suc, ◌+◌, ◌-◌, ◌%◌, ◌≤◌, ◌<◌, ◌≡◌, refl, sym, ap, ◌∙◌, inl, inr, true, false, List, [],
  ◌∷◌, ◌++◌, append_assoc, append-nil, arith, ltb, Bool-cases, length, set, take, drop,
  length-append, length-take, length-drop, length-set, take_all, nat_eq, str_eq,
}
use technician.Status.Ring.{Entry, Ring, max_history, push, ordered, push_all}

module _ {F : Type 0} where
  -- Growing, or wrapped with every slot in use.
  pub record IsValid (r : Ring F) : Type 0 where
    pub bounded : length r.entries ≤ max_history
    pub head_in : r.head < max_history
    pub growing : r.full ≡ false → r.head ≡ 0
    pub wrapped : r.full ≡ true → length r.entries ≡ max_history

  -- The write position is an index of the buffer whenever `push` overwrites.
  pub push_in_range :
      (r : Ring F)
      → IsValid r
      → ltb (length r.entries) max_history ≡ false
      → r.head < length r.entries
  push_in_range r v h = ground arith

  pub push-IsValid : (r : Ring F) (e : Entry F) → IsValid r → IsValid (push r e)
  unfolding push
  push-IsValid r e v =
      ground (arith, length-append r.entries (e ∷ []), length-set r.entries r.head e)

module _ {ℓ} {A : Type ℓ} where
  -- The newest `n` elements of a list that is oldest first.
  abbrev pub newest : ℕ → List A → List A
  newest n xs = drop (length xs - n) xs

  abbrev rotate : ℕ → List A → List A
  rotate h xs = drop h xs ++ take h xs

  length-rotate : (xs : List A) (h : ℕ) → length (rotate h xs) ≡ length xs
  length-rotate xs h =
      omega (arith, length-append (drop h xs) (take h xs), length-drop h xs, length-take h xs)

  take-set :
      (xs : List A) (h : ℕ) (v : A)
      → h < length xs
      → take (suc h) (set xs h v) ≡ take h xs ++ v ∷ []
  take-set [] h v l = absurd (omega arith)
  take-set (x ∷ xs) zero v l = refl
  take-set (x ∷ xs) (suc h) v l = ap (◌∷◌ x) (take-set xs h v (omega arith))

  drop-set : (xs : List A) (h : ℕ) (v : A) → drop (suc h) (set xs h v) ≡ drop (suc h) xs
  drop-set [] h v = refl
  drop-set (x ∷ xs) zero v = refl
  drop-set (x ∷ xs) (suc h) v = drop-set xs h v

  drop_one :
      (xs ys : List A) (h : ℕ) → h < length xs → drop 1 (drop h xs ++ ys) ≡ drop (suc h) xs ++ ys
  drop_one [] ys h l = absurd (omega arith)
  drop_one (x ∷ xs) ys zero l = refl
  drop_one (x ∷ xs) ys (suc h) l = drop_one xs ys h (omega arith)

  rotate-set :
      (xs : List A) (h : ℕ) (v : A)
      → h < length xs
      → rotate (suc h) (set xs h v) ≡ drop 1 (rotate h xs ++ v ∷ [])
  rotate-set xs h v l =
      rw (drop-set xs h v, take-set xs h v l, append_assoc (drop h xs) (take h xs) (v ∷ []))
        (sym (drop_one xs (take h xs ++ v ∷ []) h l))

  drop_all : (n : ℕ) (xs : List A) → length xs ≤ n → drop n xs ≡ []
  drop_all zero [] l = refl
  drop_all zero (x ∷ xs) l = absurd (omega arith)
  drop_all (suc n) [] l = refl
  drop_all (suc n) (x ∷ xs) l = drop_all n xs (omega arith)

  rotate_all : (xs : List A) (n : ℕ) → length xs ≡ n → rotate n xs ≡ xs
  rotate_all xs n e = rw (drop_all n xs (omega arith)) (take_all n xs (omega arith))

  pub newest_all : (n : ℕ) (xs : List A) → length xs ≤ n → newest n xs ≡ xs
  newest_all n xs l = ap (λ k. drop k xs) {x = length xs - n} {y = 0} (omega arith)

  drop-drop : (j k : ℕ) (xs : List A) → drop j (drop k xs) ≡ drop (k + j) xs
  drop-drop j zero xs = ap (λ i. drop i xs) {x = j} (omega arith)
  drop-drop j (suc k) [] =
      rw (drop_all j [] (omega arith)) (sym (drop_all (suc k + j) [] (omega arith)))
  drop-drop j (suc k) (x ∷ xs) =
      drop-drop j k xs ∙ ap (λ i. drop i (x ∷ xs)) {x = suc (k + j)} (omega arith)

  drop-append_le : (k : ℕ) (xs ys : List A) → k ≤ length xs → drop k (xs ++ ys) ≡ drop k xs ++ ys
  drop-append_le zero xs ys h = refl
  drop-append_le (suc k) [] ys h = absurd (omega arith)
  drop-append_le (suc k) (x ∷ xs) ys h = drop-append_le k xs ys (omega arith)

  pub newest-newest : (n : ℕ) (xs ys : List A) → newest n (newest n xs ++ ys) ≡ newest n (xs ++ ys)
  newest-newest n xs ys =
      rw
        (
          ← drop-append_le (length xs - n) xs ys (omega arith),
          drop-drop (length (drop (length xs - n) (xs ++ ys)) - n) (length xs - n) (xs ++ ys),
        )
        (ap (λ i. drop i (xs ++ ys))
          (omega (arith, length-drop (length xs - n) (xs ++ ys), length-append xs ys)))

module _ {F : Type 0} where
  ordered-rotate : (r : Ring F) → IsValid r → ordered r ≡ rotate r.head r.entries
  unfolding ordered
  ordered-rotate r v = ground (arith, append-nil r.entries)

  growing-ordered :
      (r : Ring F) → IsValid r → ltb (length r.entries) max_history ≡ true → ordered r ≡ r.entries
  unfolding ordered
  growing-ordered r v h = ground arith

  growing-push :
      (r : Ring F) (e : Entry F)
      → IsValid r
      → ltb (length r.entries) max_history ≡ true
      → ordered (push r e) ≡ r.entries ++ e ∷ []
  unfolding ordered push
  growing-push r e v h = ground arith

  -- The write and the step of the head, as a rotation: at the last slot the head goes back to 0.
  wrapped-push :
      (r : Ring F) (e : Entry F)
      → IsValid r
      → ltb (length r.entries) max_history ≡ false
      → rotate (push r e).head (push r e).entries ≡ rotate (suc r.head) (set r.entries r.head e)
  unfolding push
  wrapped-push r e v h = rw h (elim (Bool-cases (ltb (suc r.head) max_history)) [
    | inl more ↦
        ap (λ k. rotate k (set r.entries r.head e)) {x = (r.head + 1) % max_history}
          {y = suc r.head} (ground arith)
    | inr last ↦
        ap (λ k. rotate k (set r.entries r.head e)) {x = (r.head + 1) % max_history} {y = 0}
          (ground arith)
        ∙ append-nil (set r.entries r.head e)
        ∙ sym (
            rotate_all (set r.entries r.head e) (suc r.head)
              (ground (arith, length-set r.entries r.head e)))
  ])

  -- One `push` on the buffer is one append to the list of the newest entries.
  pub ordered-push :
      (r : Ring F) (e : Entry F)
      → IsValid r
      → ordered (push r e) ≡ newest max_history (ordered r ++ e ∷ [])
  ordered-push r e v = elim (Bool-cases (ltb (length r.entries) max_history)) [
    | inl more ↦
        rw (growing-ordered r v more, growing-push r e v more)
          (sym (
            newest_all max_history (r.entries ++ e ∷ [])
              (ground (arith, length-append r.entries (e ∷ [])))))
    | inr last ↦
        rw
          (
            ordered-rotate (push r e) (push-IsValid r e v),
            ordered-rotate r v,
            wrapped-push r e v last,
            rotate-set r.entries r.head e (push_in_range r v last),
          )
          (ap (λ k. drop k (rotate r.head r.entries ++ e ∷ [])) {x = 1}
            (ground (
              arith,
              length-append (rotate r.head r.entries) (e ∷ []),
              length-rotate r.entries r.head,
            )))
  ]

  pub push_all-IsValid : (r : Ring F) (es : List (Entry F)) → IsValid r → IsValid (push_all r es)
  unfolding push_all
  push_all-IsValid r [] v = v
  push_all-IsValid r (e ∷ es) v = push_all-IsValid (push r e) es (push-IsValid r e v)

  pub length-ordered : (r : Ring F) → IsValid r → length (ordered r) ≤ max_history
  length-ordered r v = rw (ordered-rotate r v) (ground (arith, length-rotate r.entries r.head))

  -- After any number of pushes on a valid buffer it shows, oldest first, the newest `max_history` of
  -- the entries that it showed before and those pushed.
  pub ordered-push_all :
      (r : Ring F) (es : List (Entry F))
      → IsValid r
      → ordered (push_all r es) ≡ newest max_history (ordered r ++ es)
  unfolding push_all
  ordered-push_all r [] v =
      sym (rw (append-nil (ordered r)) (newest_all max_history (ordered r) (length-ordered r v)))
  ordered-push_all r (e ∷ es) v =
      ordered-push_all (push r e) es (push-IsValid r e v)
      ∙ rw (ordered-push r e v, newest-newest max_history (ordered r ++ e ∷ []) es)
          (ap (newest max_history) (append_assoc (ordered r) (e ∷ []) es))
