-- ===== src/Sync/Outbox.antt =====
-- durable_outbox_store.go: `DurableStoreOutbox` over `InMemoryStore`, which is `InMemoryOutbox`. The
-- JSON codec of a frame is a parameter: `encode` and `decode`, with `none` for an error. A frame is a
-- list of bytes, and the store a map from epochs to frames.
pub mod Retain
pub mod Refines
use lazily_go.Base.{
  if◌then◌else◌, ◌||◌, ◌∷◌, Bool, List, Option, [], false, leb, ltb, map, none, some, true, ℕ,
  ℕ_comparable, bool_comparable, option_comparable,
}
use lazily_go.Base.Word.{zero_i64}
use lazily_go.Base.Sort.{sort}
use lazily_go.Base.Assoc

-- `InMemoryStore`.
pub record InMemoryStore : Type 0 where
  pub entries : List (ℕ × List ℕ)
  pub cursor : ℕ

-- `StoredOutboxEntry`.
abbrev pub StoredOutboxEntry : Type 0
StoredOutboxEntry = ℕ × List ℕ

-- `NewInMemoryStore`.
abbrev pub new_store : InMemoryStore
new_store = record { entries = []; cursor = zero_i64 }

-- `Put`.
unfoldable pub store_put : InMemoryStore → ℕ → List ℕ → InMemoryStore
store_put s epoch frame = record s { entries = Assoc.put epoch frame s.entries }

-- The loop of `DeleteThrough`.
pub delete_through_from : ℕ → List (ℕ × List ℕ) → List (ℕ × List ℕ)
delete_through_from epoch [] = []
delete_through_from epoch ((stored, frame) ∷ es) =
    let rest = delete_through_from epoch es in
    if leb stored epoch then rest else (stored, frame) ∷ rest

-- `DeleteThrough`.
unfoldable pub delete_through : InMemoryStore → ℕ → InMemoryStore
unfolding delete_through_from
delete_through s epoch = record s { entries = delete_through_from epoch s.entries }

-- The first loop of `ScanAfter`: the epochs after the cursor.
pub epochs_after : ℕ → List (ℕ × List ℕ) → List ℕ
epochs_after cursor [] = []
epochs_after cursor ((epoch, frame) ∷ es) =
    let rest = epochs_after cursor es in if ltb cursor epoch then epoch ∷ rest else rest

-- `s.entries[epoch]`; a missing entry is the nil slice.
abbrev pub frame_at : List (ℕ × List ℕ) → ℕ → List ℕ
frame_at es epoch = elim (Assoc.get epoch es) [ none ↦ [] | some frame ↦ frame ]

-- `ScanAfter`.
unfoldable pub scan_after : InMemoryStore → ℕ → List StoredOutboxEntry
unfolding epochs_after
scan_after s cursor =
    map (λ epoch. (epoch, frame_at s.entries epoch)) (sort (epochs_after cursor s.entries))

-- `SaveCursor`.
unfoldable pub save_cursor : InMemoryStore → ℕ → InMemoryStore
save_cursor s epoch = if ltb s.cursor epoch then record s { cursor = epoch } else s

-- `DurableStoreOutbox`; `failed` says that `err` is set.
pub record Outbox : Type 0 where
  pub store : InMemoryStore
  pub acked_through : ℕ
  pub failed : Bool

-- `NewDurableStoreOutbox`.
unfoldable pub new_outbox : InMemoryStore → Outbox
new_outbox store = record { store = store; acked_through = store.cursor; failed = false }

-- `AckedThrough`: the outbox with the cursor loaded.
unfoldable pub acked : Outbox → Outbox
acked o =
    if ltb o.acked_through o.store.cursor then record o { acked_through = o.store.cursor } else o

-- `AckThrough`.
unfoldable pub ack_through : Outbox → ℕ → Outbox
unfolding acked save_cursor delete_through
ack_through o epoch =
    let o' = acked o in
    let target = if ltb o'.acked_through epoch then epoch else o'.acked_through in
    let o'' =
      if ltb o'.acked_through target
      then record o' { store = save_cursor o'.store target; acked_through = target }
      else o' in
    record o'' { store = delete_through o''.store target }

-- `RetainedEpochs`.
unfoldable pub retained_epochs : Outbox → List ℕ
unfolding acked scan_after
retained_epochs o = map (λ e. e.0) (scan_after o.store (acked o).acked_through)

module _ {ℓ} {M : Type ℓ} (encode : M → Option (List ℕ)) (decode : List ℕ → Option M) where
  -- `Append`.
  unfoldable pub append : Outbox → ℕ → M → Outbox
  unfolding store_put
  append o epoch msg = elim (encode msg) [
    | none ↦ record o { failed = true }
    | some frame ↦ record o { store = store_put o.store epoch frame }
  ]

  -- The loop of `ReplayFrom`: the frames that decode, and whether one did not.
  pub decode_all : List StoredOutboxEntry → List (ℕ × M) × Bool
  decode_all [] = ([], false)
  decode_all ((epoch, frame) ∷ es) =
      let (rest, bad) = decode_all es in
      elim (decode frame) [ none ↦ (rest, true) | some msg ↦ ((epoch, msg) ∷ rest, bad) ]

  -- `ReplayFrom`: the outbox, and the entries.
  unfoldable pub replay_from : Outbox → ℕ → Outbox × List (ℕ × M)
  unfolding acked scan_after decode_all
  replay_from o cursor =
      let o' = acked o in
      let from = if ltb cursor o'.acked_through then o'.acked_through else cursor in
      let (out, bad) = decode_all (scan_after o'.store from) in
      (record o' { failed = o'.failed || bad }, out)
