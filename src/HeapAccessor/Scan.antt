-- ===== src/HeapAccessor/Scan.antt =====
-- src/accessor/heap.rs: the stream of a table scan.
use abdb.Base.{
  ℕ, zero, suc, ◌+◌, Option, none, some, List, [], ◌∷◌, drop, length, if◌then◌else◌, ◌==◌, Result,
  ok, err, panic, no_fuel, unwrap,
}
use abdb.Base
use abdb.Stateful.{◌>>=◌, ◌>>◌, pure}
use abdb.Visibility.{Txn, tuple_header_size, is_visible}
use abdb.Heap.{num_slots, get_data}
use abdb.HeapAccessor.{
  AccessError, buffer_error, RecordId, M, request, header_read, read_first_page, next_page,
}

-- `HeapScanState`; of the buffer, what is not delivered yet.
pub record HeapScanState : Type 0 where
  pub current_page : ℕ
  pub buffered : List (List ℕ × RecordId)
  pub txn : Txn

-- The visible tuples of a page, from a slot on.
unfoldable pub visible_from :
    Txn → ℕ → List ℕ → ℕ → ℕ → Result AccessError (List (List ℕ × RecordId))
visible_from txn id page slot zero = ok []
visible_from txn id page slot (suc n) =
    let rest = visible_from txn id page (slot + 1) n in
    elim (get_data page slot) [
      | ok bytes ↦
          (if length bytes == 0
            then rest
            else Base.◌>>=◌ (unwrap (is_visible bytes txn)) (λ visible.
              if visible
              then Base.◌>>=◌ rest (λ others.
                ok (
                  (drop tuple_header_size bytes, record { page_id = id; slot_id = slot }) ∷ others))
              else rest))
      | err e ↦ rest
      | panic ↦ panic
      | no_fuel ↦ no_fuel
    ]

-- `scan`: the stream before its first item.
unfoldable pub scan : Txn → M HeapScanState
scan txn = do
  request header_read
  first_page ← read_first_page
  pure (record { current_page = first_page; buffered = []; txn = txn })

-- An item of the stream, none at its end, and the state of the stream behind it.
abbrev pub Item : Type 0
Item = Option (Result AccessError (List ℕ × RecordId)) × HeapScanState

-- The loop of a poll, on fuel.
unfoldable pub poll : ℕ → HeapScanState → M Item
poll zero state s = (no_fuel, s)
poll (suc fuel) state s = elim state.buffered [
  | item ∷ items ↦ (ok (some (ok item), record state { buffered = items }), s)
  | [] ↦
      (if state.current_page == 0
        then (ok (none, state), s)
        else elim (s.pages state.current_page) [
          | none ↦ (ok (some (err buffer_error), state), s)
          | some page ↦ elim (visible_from state.txn state.current_page page 0 (num_slots page)) [
            | ok items ↦
                poll fuel (record state { current_page = next_page page; buffered = items }) s
            | err e ↦ (err e, s)
            | panic ↦ (panic, s)
            | no_fuel ↦ (no_fuel, s)
          ]
        ])
]
