-- ===== src/Pool/Pins.antt =====
-- src/buffer/impl/buffer_pool.rs and src/buffer/impl/guard.rs: pins, accesses and writes of frames.
use abdb.Base.{ℕ, ◌≡◌, ap, ◌∙◌, ◌+◌, ◌%◌, inl, inr, true, false, ◌==◌, arith, Bool-cases}
use abdb.Pool.{BufferPool, update, incr_pin, decr_pin}
use abdb.Pool.Policy.{Agrees, Agrees-still, set_evictable-Agrees}
use abdb.Pool.Valid.{IsValid}

incr_pin-Agrees :
    (s : BufferPool) (i : ℕ)
    → IsValid s
    → Agrees (incr_pin i s).pin_counts (incr_pin i s).eviction_policy.state
unfolding incr_pin
incr_pin-Agrees s i v = elim (Bool-cases (s.pin_counts i == 0)) [
  | inl first ↦ rw first (
      set_evictable-Agrees s.pin_counts (update s.pin_counts i ((s.pin_counts i + 1) % 256))
        s.eviction_policy i false (λ j h. ground arith) (ground arith) v.policy)
  | inr more ↦ rw more (
      Agrees-still s.pin_counts (update s.pin_counts i ((s.pin_counts i + 1) % 256))
        s.eviction_policy.state
        (λ j h. elim (Bool-cases (i == j)) [
          | inl same ↦
              let at : i ≡ j = ground arith in
              let z : s.pin_counts i ≡ 0 = ap s.pin_counts at ∙ h in ground arith
          | inr other ↦ rw other h
        ])
        v.policy)
]

pub incr_pin-IsValid : (s : BufferPool) (i : ℕ) → IsValid s → IsValid (incr_pin i s)
incr_pin-IsValid s i v = record {
  mapped = unfold incr_pin in v.mapped;
  located = unfold incr_pin in v.located;
  placed = unfold incr_pin in v.placed;
  clean = unfold incr_pin in v.clean;
  one_place = unfold incr_pin in v.one_place;
  vacancies = unfold incr_pin in v.vacancies;
  policy = incr_pin-Agrees s i v;
}

decr_pin-Agrees :
    (s : BufferPool) (i : ℕ)
    → ((s.pin_counts i == 0) ≡ false)
    → IsValid s
    → Agrees (decr_pin i s).pin_counts (decr_pin i s).eviction_policy.state
unfolding decr_pin
decr_pin-Agrees s i pinned v = elim (Bool-cases (s.pin_counts i == 1)) [
  | inl last ↦ rw last (
      set_evictable-Agrees s.pin_counts (update s.pin_counts i ((s.pin_counts i + 255) % 256))
        s.eviction_policy i true (λ j h. ground arith) (λ h. ground arith) v.policy)
  | inr more ↦ rw more (
      Agrees-still s.pin_counts (update s.pin_counts i ((s.pin_counts i + 255) % 256))
        s.eviction_policy.state
        (λ j h. elim (Bool-cases (i == j)) [
          | inl same ↦
              let at : i ≡ j = ground arith in
              let z : s.pin_counts i ≡ 0 = ap s.pin_counts at ∙ h in ground arith
          | inr other ↦ rw other h
        ])
        v.policy)
]

pub decr_pin-IsValid :
    (s : BufferPool) (i : ℕ) → ((s.pin_counts i == 0) ≡ false) → IsValid s → IsValid (decr_pin i s)
decr_pin-IsValid s i pinned v = record {
  mapped = unfold decr_pin in v.mapped;
  located = unfold decr_pin in v.located;
  placed = unfold decr_pin in v.placed;
  clean = unfold decr_pin in v.clean;
  one_place = unfold decr_pin in v.one_place;
  vacancies = unfold decr_pin in v.vacancies;
  policy = decr_pin-Agrees s i pinned v;
}
