-- ===== src/Queue/Readers.antt =====
-- queue.go, `QueueCell`: the readers and the values that they have cached.
use lazily_go.Base.{
  ◌&&◌, ◌+◌, ◌++◌, ◌-◌, ◌==◌, if◌then◌else◌, ◌∷◌, ◌≡◌, Bool, List, Option, [], arith,
  bool_comparable, false, if_elim, leb, length, length-append, ltb, none, refl, subst, suc, true,
}
use lazily_go.Cell.{value-set_value}
use lazily_go.Queue.{
  QueueCell, cached_or, first, invalidate_readers, peek, storage_push, try_push, QueuePopError,
  QueuePushError, VecDequeStorage, cleared_if, close, pop_closed, pop_elements, pop_empty,
  pop_is_ok, push_is_ok, read_empty, read_full, read_head, read_len, storage_pop, try_pop,
}

-- A cached value is right.
abbrev pub Holds {ℓ} : {A : Type ℓ} → Option A → A → Type ℓ
Holds cached a = cached_or cached a ≡ a

-- A reader that is cleared when its value changes.
Holds-cleared_if {ℓ} :
    {A : Type ℓ} (changed : Bool) (cached : Option A) (a b : A)
    → Holds cached a
    → (changed ≡ false → a ≡ b)
    → Holds (cleared_if changed cached) b
Holds-cleared_if true cached a b h same = refl
Holds-cleared_if false cached a b h same = subst (Holds cached) (same refl) h

module _ {ℓ} {T : Type ℓ} where
  -- Every reader that is cached holds the present value, and the bound is the storage's.
  pub record IsCoherent (q : QueueCell T) : Type ℓ where
    pub head : Holds q.head (peek q.storage)
    pub len : Holds q.len (length q.storage.elements)
    pub empty : Holds q.empty (length q.storage.elements == 0)
    pub full : Holds q.full (q.bounded && leb q.capacity (length q.storage.elements))
    pub closed : q.closed.value ≡ q.storage.closed

  first_push : (xs : List T) (v : T) → (length xs == 0) ≡ false → first xs ≡ first (xs ++ v ∷ [])
  first_push [] v e = ground arith
  first_push (x ∷ xs) v e = refl

  pushed-IsCoherent :
      (q : QueueCell T) (v : T)
      → IsCoherent q
      → IsCoherent (
          invalidate_readers
            (record q { storage = record (q.storage) { elements = q.storage.elements ++ v ∷ [] } })
            (length q.storage.elements)
            (length q.storage.elements + 1)
            (length q.storage.elements == 0))
  unfolding invalidate_readers
  pushed-IsCoherent q v c =
      let more = length-append q.storage.elements (v ∷ []) in
      record {
        head =
            Holds-cleared_if (length q.storage.elements == 0) q.head _ _ c.head
              (first_push q.storage.elements v);
        len = refl;
        empty = rw more (Holds-cleared_if _ q.empty _ _ c.empty (λ e. ground (arith, e)));
        full = rw more (Holds-cleared_if _ q.full _ _ c.full (λ e. ground (arith, e)));
        closed = c.closed;
      }

  pub try_push-IsCoherent : (q : QueueCell T) (v : T) → IsCoherent q → IsCoherent (try_push q v).0
  unfolding try_push storage_push
  try_push-IsCoherent q v c =
      if_elim P q.storage.closed (λ _. c)
        (λ _.
          if_elim P (ltb 0 q.storage.capacity && leb q.storage.capacity (length q.storage.elements))
            (λ _. c) (λ _. pushed-IsCoherent q v c))
    where
      P : VecDequeStorage T × QueuePushError → Type ℓ
      P (s, err) = IsCoherent (
          if push_is_ok err
          then invalidate_readers (record q { storage = s }) (length q.storage.elements)
              (length q.storage.elements + 1) (length q.storage.elements == 0)
          else record q { storage = s })

  pub try_pop-IsCoherent : (q : QueueCell T) → IsCoherent q → IsCoherent (try_pop q).0
  unfolding try_pop storage_pop invalidate_readers
  try_pop-IsCoherent q c = go q.storage.elements refl
    where
      P : VecDequeStorage T × Option T × QueuePopError → Type ℓ
      P (s, v, err) = IsCoherent (
          if pop_is_ok err
          then invalidate_readers (record q { storage = s }) (length q.storage.elements)
              (length q.storage.elements - 1) true
          else record q { storage = s })

      failed : (b : Bool) → P (q.storage, none, if b then pop_closed else pop_empty)
      failed true = c
      failed false = c

      go : (xs : List T) → q.storage.elements ≡ xs → P (pop_elements q.storage xs)
      go [] e = failed q.storage.closed
      go (x ∷ rest) e =
          let before : length q.storage.elements ≡ suc (length rest) = rw e refl in
          record {
            head = refl;
            len = refl;
            empty = Holds-cleared_if _ q.empty _ _ c.empty (λ same. ground (arith, same, before));
            full = Holds-cleared_if _ q.full _ _ c.full (λ same. ground (arith, same, before));
            closed = c.closed;
          }

  pub close-IsCoherent : (q : QueueCell T) → IsCoherent q → IsCoherent (close q)
  unfolding close
  close-IsCoherent q c =
      if_elim IsCoherent q.storage.closed (λ _. c)
        (λ _. record {
          head = c.head;
          len = c.len;
          empty = c.empty;
          full = c.full;
          closed = value-set_value ⦃c = bool_comparable⦄ q.closed true;
        })

  -- The readers, read one after the other.
  unfoldable pub read_all : QueueCell T → QueueCell T
  unfolding read_head read_len read_empty read_full
  read_all q = (read_full (read_empty (read_len (read_head q).0).0).0).0

  pub read_all-IsCoherent : (q : QueueCell T) → IsCoherent q → IsCoherent (read_all q)
  unfolding read_all read_head read_len read_empty read_full
  read_all-IsCoherent q c = record {
    head = c.head;
    len = c.len;
    empty = c.empty;
    full = c.full;
    closed = c.closed;
  }
