-- ===== src/Topic/Saved.antt =====
-- queue.go: `TopicSnapshot`, `Snapshot`, and the checks on a saved subscription.
use lazily_go.Base.{
  ◌&&◌, ◌<◌, if◌then◌else◌, ◌||◌, ◌∙◌, ◌≡◌, ◌≤◌, ◌⊎◌, Bool, Bool-cases, List, Option, false, inl,
  inr, map, none, not, refl, some, true, ℕ,
}
use lazily_go.Topic.{TopicCell, TopicDurability, TopicSubscription, is_durable, durable, ephemeral}
use lazily_go.Base.Word.{between-int, int_between, int_lt, word_mod, zero_i64}

-- A durability is a string; `none` is one that is neither of the two.
pub record TopicSubscriptionSnapshot {ℓ} (I : Type ℓ) : Type ℓ where
  pub id : I
  pub cursor : ℕ
  pub durability : Option TopicDurability
  pub connected : Bool

pub record TopicSnapshot {ℓ} (I T : Type ℓ) : Type ℓ where
  pub base_offset : ℕ
  pub elements : List T
  pub subscriptions : List (TopicSubscriptionSnapshot I)

abbrev pub saved_of {ℓ} : {I : Type ℓ} → I × TopicSubscription → TopicSubscriptionSnapshot I
saved_of (id, sub) = record {
  id = id;
  cursor = sub.cursor;
  durability = some sub.durability;
  connected = sub.connected;
}

unfoldable pub snapshot {ℓ} : {I T : Type ℓ} → TopicCell I T → TopicSnapshot I T
snapshot t = record {
  base_offset = t.base_offset;
  elements = t.elements;
  subscriptions = map saved_of t.subscriptions;
}

-- The checks on the durability of a saved subscription, and what it becomes; `none` is a panic.
pub restored_as : ℕ → Bool → Option TopicDurability → Option TopicSubscription
restored_as cursor connected none = none
restored_as cursor connected (some d) =
    if not (is_durable d) && not connected
    then none
    else some (record { cursor = cursor; durability = d; connected = connected })

-- A durability that makes sense.
abbrev Kind : Bool → Option TopicDurability → Type 0
Kind connected d = (d ≡ some durable) ⊎ ((d ≡ some ephemeral) × (connected ≡ true))

restored_as-Kind :
    (n : ℕ) (on : Bool) (d : Option TopicDurability) (sub : TopicSubscription)
    → restored_as n on d ≡ some sub
    → Kind on d
unfolding restored_as
restored_as-Kind n on none sub e = cc
restored_as-Kind n on (some durable) sub e = inl refl
restored_as-Kind n true (some ephemeral) sub e = inr (refl, refl)
restored_as-Kind n false (some ephemeral) sub e = cc

Kind-restored_as :
    (n : ℕ) (on : Bool) (d : TopicDurability)
    → Kind on (some d)
    → restored_as n on (some d) ≡ some (record { cursor = n; durability = d; connected = on })
unfolding restored_as
Kind-restored_as n on durable k = refl
Kind-restored_as n true ephemeral k = refl
Kind-restored_as n false ephemeral (inl e) = cc
Kind-restored_as n false ephemeral (inr (e, on)) = cc

module _ {ℓ} {I : Type ℓ} where
  -- All the checks.
  pub restored : ℕ → ℕ → TopicSubscriptionSnapshot I → Option TopicSubscription
  restored base tail saved =
      if int_lt saved.cursor base || int_lt tail saved.cursor
      then none
      else restored_as saved.cursor saved.connected saved.durability

  -- A saved subscription that makes sense: its cursor is in the retained log, its durability is one of
  -- the two, and it is connected if it is ephemeral.
  abbrev pub Sensible : ℕ → ℕ → TopicSubscriptionSnapshot I → Type 0
  Sensible base tail saved =
      (base ≤ saved.cursor)
      × (saved.cursor ≤ tail)
      × ((saved.durability ≡ some durable)
          ⊎ ((saved.durability ≡ some ephemeral) × (saved.connected ≡ true)))

  restored_inside :
      (base tail : ℕ) (saved : TopicSubscriptionSnapshot I)
      → tail < zero_i64
      → base ≤ saved.cursor
      → saved.cursor ≤ tail
      → restored base tail saved ≡ restored_as saved.cursor saved.connected saved.durability
  unfolding restored
  restored_inside base tail saved small low high =
      rw (between-int base tail saved.cursor small low high) refl

  pub restored-Sensible :
      (base tail : ℕ) (saved : TopicSubscriptionSnapshot I) (sub : TopicSubscription)
      → base < zero_i64
      → tail < zero_i64
      → saved.cursor < word_mod
      → restored base tail saved ≡ some sub
      → Sensible base tail saved
  unfolding restored
  restored-Sensible base tail saved sub b t w e =
      elim (Bool-cases (int_lt saved.cursor base || int_lt tail saved.cursor)) [
        | inl out ↦ absurd (cc (rw (out, restored) at e))
        | inr inside ↦ (
          (int_between base tail saved.cursor b t w inside).0,
          (int_between base tail saved.cursor b t w inside).1,
          restored_as-Kind saved.cursor saved.connected saved.durability sub
              (rw (inside, restored) at e),
        )
      ]

  pub restored-saved_of :
      (base tail : ℕ) (id : I) (sub : TopicSubscription)
      → tail < zero_i64
      → Sensible base tail (saved_of (id, sub))
      → restored base tail (saved_of (id, sub)) ≡ some sub
  restored-saved_of base tail id sub small (low, high, kind) =
      restored_inside base tail (saved_of (id, sub)) small low high
      ∙ Kind-restored_as sub.cursor sub.connected sub.durability kind

  pub Sensible-restored :
      (base tail : ℕ) (saved : TopicSubscriptionSnapshot I)
      → tail < zero_i64
      → Sensible base tail saved
      → (sub : TopicSubscription) × (restored base tail saved ≡ some sub)
  Sensible-restored base tail saved small (low, high, kind) =
      let (sub, e) = some_of saved.cursor saved.connected saved.durability kind in
      (sub, restored_inside base tail saved small low high ∙ e)
    where
      some_of :
          (n : ℕ) (on : Bool) (d : Option TopicDurability)
          → Kind on d
          → (sub : TopicSubscription) × (restored_as n on d ≡ some sub)
      some_of n on none (inl e) = absurd (cc)
      some_of n on none (inr (e, h)) = absurd (cc)
      some_of n on (some d) k = (_, Kind-restored_as n on d k)
