-- ===== src/Heap/Windows.antt =====
-- src/page/overlays/table/heap_page.rs: what a write to a page leaves of its bytes.
use abdb.Base.{
  ℕ, zero, suc, ◌+◌, ◌<◌, ◌≤◌, ◌≡◌, refl, sym, ap, ◌∙◌, ◌⊎◌, inl, inr, some, List, [], ◌∷◌, length,
  get_elem?, arith,
}
use abdb.Bytes.{to_le_bytes, from_le_bytes, length-to_le_bytes, from_le_bytes-to_le_bytes}
use abdb.Heap.{window, write_at, read16, write16, slot_at, slots_from}

pub length-write_at :
    (xs : List ℕ) (o : ℕ) (source : List ℕ) → length (write_at xs o source) ≡ length xs
unfolding write_at
length-write_at [] o source = refl
length-write_at (x ∷ xs) (suc o) source = ap suc (length-write_at xs o source)
length-write_at (x ∷ xs) zero [] = refl
length-write_at (x ∷ xs) zero (b ∷ source) = ap suc (length-write_at xs zero source)

window-below :
    (xs : List ℕ) (p : ℕ) (source : List ℕ) (n o : ℕ)
    → o + n ≤ p
    → window n o (write_at xs p source) ≡ window n o xs
unfolding write_at
window-below [] p source n o h = refl
window-below (x ∷ xs) (suc p) source n (suc o) h = window-below xs p source n o (omega arith)
window-below (x ∷ xs) (suc p) source zero zero h = refl
window-below (x ∷ xs) (suc p) source (suc n) zero h =
    ap (λ t. x ∷ t) (window-below xs p source n zero (omega arith))
window-below (x ∷ xs) zero source zero zero h = refl
window-below (x ∷ xs) zero source (suc n) zero h = absurd (omega arith)
window-below (x ∷ xs) zero source n (suc o) h = absurd (omega arith)

window-above :
    (xs : List ℕ) (p : ℕ) (source : List ℕ) (n o : ℕ)
    → p + length source ≤ o
    → window n o (write_at xs p source) ≡ window n o xs
unfolding write_at
window-above [] p source n o h = refl
window-above (x ∷ xs) (suc p) source n (suc o) h = window-above xs p source n o (omega arith)
window-above (x ∷ xs) (suc p) source n zero h = absurd (omega arith)
window-above (x ∷ xs) zero [] n o h = refl
window-above (x ∷ xs) zero (b ∷ source) n zero h = absurd (omega arith)
window-above (x ∷ xs) zero (b ∷ source) n (suc o) h = window-above xs zero source n o (omega arith)

-- What is written within the bytes stands there.
pub window-there :
    (xs : List ℕ) (p : ℕ) (source : List ℕ)
    → p + length source ≤ length xs
    → window (length source) p (write_at xs p source) ≡ source
unfolding write_at
window-there [] zero [] h = refl
window-there [] zero (b ∷ source) h = absurd (omega arith)
window-there [] (suc p) source h = absurd (omega arith)
window-there (x ∷ xs) (suc p) source h = window-there xs p source (omega arith)
window-there (x ∷ xs) zero [] h = refl
window-there (x ∷ xs) zero (b ∷ source) h =
    ap (λ t. b ∷ t) (window-there xs zero source (omega arith))

-- Two ranges of bytes that do not meet.
abbrev pub Apart : ℕ → ℕ → ℕ → ℕ → Type 0
Apart o n p m = (o + n ≤ p) ⊎ (p + m ≤ o)

pub window-Apart :
    (xs : List ℕ) (p : ℕ) (source : List ℕ) (n o : ℕ)
    → Apart o n p (length source)
    → window n o (write_at xs p source) ≡ window n o xs
window-Apart xs p source n o (inl below) = window-below xs p source n o below
window-Apart xs p source n o (inr above) = window-above xs p source n o above

pub window-write16 :
    (xs : List ℕ) (p v n o : ℕ) → Apart o n p 2 → window n o (write16 xs p v) ≡ window n o xs
window-write16 xs p v n o (inl below) = window-below xs p (to_le_bytes 2 v) n o below
window-write16 xs p v n o (inr above) =
    window-above xs p (to_le_bytes 2 v) n o (rw (length-to_le_bytes 2 v) above)

pub read16-write16 :
    (xs : List ℕ) (p v : ℕ) → p + 2 ≤ length xs → v < 65536 → read16 (write16 xs p v) p ≡ v
read16-write16 xs p v h small =
    let long : length (to_le_bytes 2 v) ≡ 2 = length-to_le_bytes 2 v in
    let there = window-there xs p (to_le_bytes 2 v) (rw long h) in
    ap (λ k. from_le_bytes (window k p (write16 xs p v))) (sym long)
    ∙ ap from_le_bytes there
    ∙ from_le_bytes-to_le_bytes 2 v (omega arith)

get_elem?-slots_from :
    (page : List ℕ) (start n i : ℕ)
    → i < n
    → get_elem? (slots_from page start n) i ≡ some (slot_at page (start + i))
unfolding slots_from
get_elem?-slots_from page start zero i h = absurd (omega arith)
get_elem?-slots_from page start (suc n) zero h =
    let here : start ≡ start + 0 = omega arith in ap (λ k. some (slot_at page k)) here
get_elem?-slots_from page start (suc n) (suc i) h =
    let next : start + 1 + i ≡ start + suc i = omega arith in
    get_elem?-slots_from page (start + 1) n i (omega arith) ∙ ap (λ k. some (slot_at page k)) next

pub get_elem?-first_slots :
    (page : List ℕ) (n i : ℕ) → i < n → get_elem? (slots_from page 0 n) i ≡ some (slot_at page i)
get_elem?-first_slots page n i h =
    let here : 0 + i ≡ i = omega arith in
    get_elem?-slots_from page 0 n i h ∙ ap (λ k. some (slot_at page k)) here
