-- ===== src/Pool/Valid.antt =====
-- src/buffer/impl/buffer_pool.rs: when a pool is in order, and what its pages hold.
use abdb.Base.{ℕ, ◌≡◌, refl, Bool, true, false, Option, some, none, List, [], ◌∷◌, ◌==◌, arith}
use abdb.Common.{PPageId, same_loc, same_loc_refl}
use abdb.Pool.{FrameMeta, vacant, loaded, BufferPool, update, update_loc, mem}
use abdb.Pool.Policy.{Agrees}

-- The frames of the list are vacant, each listed once.
abbrev pub AllVacant : (ℕ → FrameMeta) → List ℕ → Type 0
AllVacant metas [] = Unit {0}
AllVacant metas (i ∷ is) = (metas i ≡ vacant) × (mem i is ≡ false) × AllVacant metas is

-- The frame holds the page of the id.
abbrev pub Holds : BufferPool → ℕ → ℕ → PPageId → Bool → Type 0
Holds s i id p dirty = s.frame_meta i ≡ loaded id p dirty

-- The maps and the frames say the same, a clean frame holds what its place on disk does, no two
-- pages share a place, the vacant frames are vacant, and the policy agrees with the pins.
pub record IsValid (s : BufferPool) : Type 0 where
  pub mapped :
      (id i : ℕ)
      → s.frame_lpage_id_map id ≡ some i
      → (p : PPageId) × (dirty : Bool) × Holds s i id p dirty
  pub located :
      (p : PPageId) (i : ℕ)
      → s.frame_ppage_id_map p ≡ some i
      → (id : ℕ) × (dirty : Bool) × Holds s i id p dirty
  pub placed :
      (i id : ℕ) (p : PPageId) (dirty : Bool)
      → Holds s i id p dirty
      → (s.frame_lpage_id_map id ≡ some i)
        × (s.frame_ppage_id_map p ≡ some i)
        × (s.disk_manager.page_directory id ≡ some p)
  pub clean :
      (i id : ℕ) (p : PPageId) → Holds s i id p false → s.disk_manager.files p ≡ some (s.buf i)
  pub one_place :
      (a b : ℕ) (p : PPageId)
      → s.disk_manager.page_directory a ≡ some p
      → s.disk_manager.page_directory b ≡ some p
      → a ≡ b
  pub vacancies : AllVacant s.frame_meta s.vacant_frames
  pub policy : Agrees s.pin_counts s.eviction_policy.state

abbrev pub stored_at : (PPageId → Option (List ℕ)) → Option PPageId → Option (List ℕ)
stored_at files none = none
stored_at files (some p) = files p

abbrev pub content_in : (ℕ → List ℕ) → Option (List ℕ) → Option ℕ → Option (List ℕ)
content_in buf stored none = stored
content_in buf stored (some i) = some (buf i)

-- What a page holds: its frame's bytes, or else what is on disk at its place.
abbrev pub view : BufferPool → ℕ → Option (List ℕ)
view s id =
    content_in s.buf (stored_at s.disk_manager.files (s.disk_manager.page_directory id))
      (s.frame_lpage_id_map id)

abbrev pub Same : BufferPool → BufferPool → Type 0
Same s t = (id : ℕ) → view t id ≡ view s id

module _ {ℓ} {A : Type ℓ} where
  pub update_same : (f : ℕ → A) (i : ℕ) (a : A) → update f i a i ≡ a
  update_same f i a = ground arith

  pub update_at : (f : ℕ → A) (i : ℕ) (a : A) (j : ℕ) → ((i == j) ≡ true) → update f i a j ≡ a
  update_at f i a j h = rw h refl

  pub update_loc_at :
      (f : PPageId → A) (p : PPageId) (a : A) (q : PPageId)
      → (same_loc p q ≡ true)
      → update_loc f p a q ≡ a
  update_loc_at f p a q h = rw h refl

  pub update_other : (f : ℕ → A) (i : ℕ) (a : A) (j : ℕ) → ((i == j) ≡ false) → update f i a j ≡ f j
  update_other f i a j h = rw h refl

  pub update_loc_same : (f : PPageId → A) (p : PPageId) (a : A) → update_loc f p a p ≡ a
  update_loc_same f p a = rw (same_loc_refl p) refl

  pub update_loc_other :
      (f : PPageId → A) (p : PPageId) (a : A) (q : PPageId)
      → (same_loc p q ≡ false)
      → update_loc f p a q ≡ f q
  update_loc_other f p a q h = rw h refl

pub loaded_injective :
    {a b : ℕ} {p q : PPageId} {d e : Bool}
    → loaded a p d ≡ loaded b q e
    → (a ≡ b) × (p ≡ q) × (d ≡ e)
loaded_injective h = (cc, cc, cc)

pub vacant-loaded : {id : ℕ} {p : PPageId} {dirty : Bool} → vacant ≡ loaded id p dirty → ⊥
vacant-loaded h = cc

-- Two frames of one page are one.
pub one_frame :
    (s : BufferPool) (i j id : ℕ) (p q : PPageId) (d e : Bool)
    → IsValid s
    → Holds s i id p d
    → Holds s j id q e
    → i ≡ j
one_frame s i j id p q d e v h g =
    let a = (v.placed i id p d h).0 in let b = (v.placed j id q e g).0 in cc

pub one_frame_at :
    (s : BufferPool) (i j a b : ℕ) (p : PPageId) (d e : Bool)
    → IsValid s
    → Holds s i a p d
    → Holds s j b p e
    → i ≡ j
one_frame_at s i j a b p d e v h g =
    let x = (v.placed i a p d h).1 in let y = (v.placed j b p e g).1 in cc
