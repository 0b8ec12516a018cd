-- ===== src/Slots/Shift.antt =====
-- The shifts of `insert_entry` and `delete_entry`, against insertion and removal at an index of a list.
use abdb.Base.{
  ℕ, zero, suc, ◌+◌, ◌-◌, ◌≤◌, ◌<◌, ◌≡◌, refl, ap, ◌∙◌, true, List, [], ◌∷◌, ◌++◌, length, take,
  drop, set, insert_at, delete_at, length-take, length-drop, length-append, length-set,
  take-append_left, ltb, ok, arith, Bool-cases, inl, inr,
}
use abdb.Slots.{copy_within, shift_insert, shift_delete, incr16}

module _ {E : Type 0} where
  pub length-copy_within :
      (xs : List E) (src count dst : ℕ)
      → src + count ≤ length xs
      → dst + count ≤ length xs
      → length (copy_within xs src count dst) ≡ length xs
  unfolding copy_within
  length-copy_within xs src count dst p q = omega (
    arith,
    length-append (take dst xs) (take count (drop src xs) ++ drop (dst + count) xs),
    length-append (take count (drop src xs)) (drop (dst + count) xs),
    length-take dst xs,
    length-take count (drop src xs),
    length-drop src xs,
    length-drop (dst + count) xs,
  )

  opened :
      (pos gap n : ℕ) (xs : List E) (e : E)
      → n ≡ pos + gap
      → n < length xs
      → take (suc n) (set (take (suc pos) xs ++ (take gap (drop pos xs) ++ drop (suc n) xs)) pos e)
        ≡ insert_at pos e (take n xs)
  opened zero gap n [] e h p = elim p [ ]
  opened zero gap n (x ∷ xs) e h p =
      let g : gap ≡ n = omega arith in
      rw g (
        ap (◌∷◌ e) (
          take-append_left n (take n (x ∷ xs)) (drop n xs) (omega (arith, length-take n (x ∷ xs)))))
  opened (suc pos) gap zero xs e h p = absurd (omega arith)
  opened (suc pos) gap (suc n) [] e h p = elim p [ ]
  opened (suc pos) gap (suc n) (x ∷ xs) e h p =
      ap (◌∷◌ x) (opened pos gap n xs e (omega arith) (omega arith))

  at_end :
      (n : ℕ) (xs : List E) (e : E)
      → n < length xs
      → take (suc n) (set xs n e) ≡ insert_at n e (take n xs)
  at_end n [] e h = elim h [ ]
  at_end zero (x ∷ xs) e h = refl
  at_end (suc n) (x ∷ xs) e h = ap (◌∷◌ x) (at_end n xs e (omega arith))

  closed :
      (i gap n : ℕ) (xs : List E)
      → n ≡ i + gap
      → n < length xs
      → take n (take i xs ++ (take gap (drop (suc i) xs) ++ drop n xs))
        ≡ delete_at i (take (suc n) xs)
  closed zero gap n [] h p = elim p [ ]
  closed zero gap n (x ∷ xs) h p =
      let g : gap ≡ n = omega arith in
      rw g (take-append_left n (take n xs) (drop n (x ∷ xs)) (omega (arith, length-take n xs)))
  closed (suc i) gap zero xs h p = absurd (omega arith)
  closed (suc i) gap (suc n) [] h p = elim p [ ]
  closed (suc i) gap (suc n) (x ∷ xs) h p =
      ap (◌∷◌ x) (closed i gap n xs (omega arith) (omega arith))

  last_gone : (n : ℕ) (xs : List E) → n < length xs → take n xs ≡ delete_at n (take (suc n) xs)
  last_gone n [] h = elim h [ ]
  last_gone zero (x ∷ xs) h = refl
  last_gone (suc n) (x ∷ xs) h = ap (◌∷◌ x) (last_gone n xs (omega arith))

  -- `shift_insert` on an array with room: it does not panic, the live entries gain `e` at `pos`, and
  -- the array keeps its length.
  pub shift_insert_lem :
      (capacity : ℕ) (slots : List E) (num pos : ℕ) (e : E)
      → pos ≤ num
      → num < capacity
      → capacity ≡ length slots
      → capacity < 65535
      → (s : List E) × (shift_insert capacity slots num pos e ≡ ok s)
        × (take (suc num) s ≡ insert_at pos e (take num slots))
        × (length s ≡ length slots)
  unfolding shift_insert
  shift_insert_lem capacity slots num pos e p room whole small =
      let within : ltb pos capacity ≡ true = ground arith in
      let incr : incr16 pos ≡ suc pos = omega arith in
      let over : suc pos + (num - pos) ≡ suc num = omega arith in
      elim (Bool-cases (ltb pos num)) [
        | inl more ↦ (
          set (copy_within slots pos (num - pos) (suc pos)) pos e,
          rw (within, more, incr) refl,
          unfold copy_within in
              rw over (opened pos (num - pos) num slots e (omega arith) (omega arith)),
          length-set _ pos e
              ∙ length-copy_within slots pos (num - pos) (suc pos) (omega arith) (omega arith),
        )
        | inr last ↦
            let same : num ≡ pos = ground arith in
            (
              set slots pos e,
              rw (within, last) refl,
              rw (← same) (at_end num slots e (omega arith)),
              length-set slots pos e,
            )
      ]

  -- `shift_delete` within the live entries removes one of them; the caller counts down.
  pub shift_delete_lem :
      (slots : List E) (num index : ℕ)
      → index < num
      → num ≤ length slots
      → (take (num - 1) (shift_delete slots num index) ≡ delete_at index (take num slots))
        × (length (shift_delete slots num index) ≡ length slots)
  unfolding shift_delete
  shift_delete_lem slots zero index p fits = elim p [ ]
  shift_delete_lem slots (suc n) index p fits =
      let n' : suc n - 1 ≡ n = omega arith in
      let incr : index + 1 ≡ suc index = omega arith in
      let over : index + (n - index) ≡ n = omega arith in
      elim (Bool-cases (ltb index n)) [
        | inl more ↦
            rw (n', more, incr)
              (
                unfold copy_within in
                    rw over (closed index (n - index) n slots (omega arith) (omega arith)),
                length-copy_within slots (suc index) (n - index) index (omega arith) (omega arith),
              )
        | inr last ↦
            let same : n ≡ index = ground arith in
            rw (n', last) (rw (← same) (last_gone n slots (omega arith)), refl)
      ]
