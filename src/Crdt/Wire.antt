-- ===== src/Crdt/Wire.antt =====
-- crdt.go, `ToWire` and `StampFrontierFromWire`: a frontier and its wire form.
use lazily_go.Base.{
  ◌==◌, ◌∙◌, ◌∷◌, ◌≡◌, ◌⊎◌, ==_iff, All, All-of_In, Bool-cases, In, List, Option, Option-cases, [],
  arith, inl, inr, map, none, refl, some, sym, ℕ, ℕ_comparable,
}
use lazily_go.Crdt.{
  StampFrontier, StampFrontierEntry, from_wire, get, observe, stamp_at, to_wire, frontier_from_wire,
  frontier_to_wire, new_stamp_frontier, observe_entries, peers,
}
use lazily_go.Crdt.Frontier.{join, join_idem, get-observe}
use lazily_go.Base.Assoc
use lazily_go.Hlc.{HlcStamp}
use lazily_go.Base.Sort.{In-sort}

-- A stamp is the same after the trip.
wire_stamp : (s : HlcStamp) → from_wire (to_wire s) ≡ s
unfolding from_wire to_wire
wire_stamp s = refl

abbrev entry : StampFrontier → ℕ → StampFrontierEntry
entry f p = record { peer = p; stamp = to_wire (stamp_at f p) }

joined_same :
    (a : Option HlcStamp) (s : HlcStamp) → ((a ≡ none) ⊎ (a ≡ some s)) → join a (some s) ≡ some s
joined_same a s (inl e) = rw e
joined_same a s (inr e) = rw e (join_idem (some s))

stamp_at_known : (f : StampFrontier) (p : ℕ) (s : HlcStamp) → get f p ≡ some s → stamp_at f p ≡ s
unfolding get
stamp_at_known f p s e = rw (e, stamp_at)

-- The next entry leaves nothing or what the frontier knows, and what it knows of the entry's peer.
observe_entry :
    (f acc : StampFrontier) (p q : ℕ) (s : HlcStamp)
    → get f p ≡ some s
    → ((get acc q ≡ none) ⊎ (get acc q ≡ get f q))
    → ((get (observe acc p s).0 q ≡ none) ⊎ (get (observe acc p s).0 q ≡ get f q))
      × ((p ≡ q) ⊎ (get acc q ≡ get f q) → get (observe acc p s).0 q ≡ get f q)
observe_entry f acc p q s e h = elim (Bool-cases (p == q)) [
  | inl same ↦
      let at_q : get f q ≡ some s = rw (← (==_iff p q).0 same) e in
      let now : get (observe acc p s).0 q ≡ get f q = rw (get-observe acc p q s) (
        rw same (
          joined_same (get acc q) s (elim h [ inl n ↦ inl n | inr k ↦ inr (k ∙ at_q) ])
          ∙ sym at_q)) in
      (inr now, λ _. now)
  | inr other ↦
      let keep : get (observe acc p s).0 q ≡ get acc q =
        rw (get-observe acc p q s) (rw other refl) in
      (
        elim h [ inl n ↦ inl (keep ∙ n) | inr k ↦ inr (keep ∙ k) ],
        elim [ inl e' ↦ absurd (ground arith) | inr k ↦ keep ∙ k ],
      )
]

observe_entries_known :
    (f acc : StampFrontier) (ps : List ℕ) (q : ℕ)
    → ((get acc q ≡ none) ⊎ (get acc q ≡ get f q))
    → All (λ p. (s : HlcStamp) × (get f p ≡ some s)) ps
    → let r = get (observe_entries acc (map (entry f) ps)) q in
      ((r ≡ none) ⊎ (r ≡ get f q)) × (In q ps ⊎ (get acc q ≡ get f q) → r ≡ get f q)
unfolding observe_entries get Assoc.get observe from_wire Assoc.put to_wire
observe_entries_known f acc [] q h ks = (h, elim [ inl i ↦ elim i [ ] | inr k ↦ k ])
observe_entries_known f acc (p ∷ ps) q h ((s, e), ks) = rw (sent) (
    let (now, at) = observe_entry f acc p q s e h in
    let (rest, all) = observe_entries_known f (observe acc p s).0 ps q now ks in
    (
      rest,
      elim [
        | inl (inl same) ↦ all (inr (at (inl same)))
        | inl (inr later) ↦ all (inl later)
        | inr k ↦ all (inr (at (inr k)))
      ],
    ))
  where
    sent : from_wire (to_wire (stamp_at f p)) ≡ s
    sent = wire_stamp (stamp_at f p) ∙ stamp_at_known f p s e

-- A frontier that is sent over the wire and read back holds for every peer the stamp that it held, and
-- none for the peers that it did not know.
pub frontier_from_wire-to_wire :
    (f : StampFrontier) (q : ℕ) → get (frontier_from_wire (frontier_to_wire f)) q ≡ get f q
unfolding frontier_from_wire frontier_to_wire get Assoc.get
frontier_from_wire-to_wire f q = elim (Option-cases (get f q)) [
  | inl e ↦ elim known.0 [ inl n ↦ n ∙ sym e | inr k ↦ k ]
  | inr (s, e) ↦ known.1 (inl ((In-sort q _).1 (Assoc.keys_of_get q s f.stamps (unfold get in e))))
]
  where
    entries_known : All (λ p. (s : HlcStamp) × (get f p ≡ some s)) (peers f)
    entries_known =
        All-of_In (λ p. (s : HlcStamp) × (get f p ≡ some s)) (peers f)
          (λ p i. Assoc.get_of_keys p f.stamps ((In-sort p _).0 i))

    known :
        let r = get (observe_entries new_stamp_frontier (map (entry f) (peers f))) q in
        ((r ≡ none) ⊎ (r ≡ get f q))
        × (In q (peers f) ⊎ (get new_stamp_frontier q ≡ get f q) → r ≡ get f q)
    known = observe_entries_known f new_stamp_frontier (peers f) q (inl refl) entries_known
