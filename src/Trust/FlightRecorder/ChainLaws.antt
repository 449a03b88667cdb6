-- ===== src/Trust/FlightRecorder/ChainLaws.antt =====
-- The hash chain that the flight recorder keeps.
use aixion_control_tower.Prelude.{
  ℕ, ◌+◌, ◌<◌, ◌≡◌, ◌↔◌, refl, true, Option, none, some, List, [], ◌∷◌, ◌++◌, String, arith, eq_iff,
  option_eq, string_eq, nat_eq, length, All,
}
use aixion_control_tower.Prelude.Lists.{All-map}
use aixion_control_tower.Trust.FlightRecorder.Chain.{
  TrustEvent, event_keyed, EventMaterial, event_material, ordered_events, last_event, next_sequence,
  hash_of, check_events, verify_flight_recorder,
}

module _ (sha256_hex : EventMaterial → String) where
  -- From `sequence` on, the events are numbered without a gap, each has the hash of the one before
  -- (of the first: `previous`), and the hash of each is that of its material.
  abbrev pub IsChain : ℕ → Option String → List TrustEvent → Type 0
  IsChain sequence previous [] = Unit {0}
  IsChain sequence previous (event ∷ rest) =
      (event.sequence ≡ sequence)
      × (event.previous_hash ≡ previous)
      × (sha256_hex (event_material event) ≡ event.event_hash)
      × IsChain (sequence + 1) (some event.event_hash) rest

  check→IsChain :
      (count sequence : ℕ) (previous : Option String) (events : List TrustEvent)
      → (check_events sha256_hex count sequence previous events).valid ≡ true
      → IsChain sequence previous events
  check→IsChain count sequence previous [] h = tt
  check→IsChain count sequence previous (e ∷ es) h = ground (
    arith,
    check→IsChain count (sequence + 1) (some e.event_hash) es,
    eq_iff e.previous_hash previous,
    eq_iff (sha256_hex (event_material e)) e.event_hash,
  )

  IsChain→check :
      (count sequence : ℕ) (previous : Option String) (events : List TrustEvent)
      → IsChain sequence previous events
      → (check_events sha256_hex count sequence previous events).valid ≡ true
  IsChain→check count sequence previous [] h = refl
  IsChain→check count sequence previous (e ∷ es) h = ground (
    arith,
    IsChain→check count (sequence + 1) (some e.event_hash) es h.3,
    eq_iff e.previous_hash previous,
    eq_iff (sha256_hex (event_material e)) e.event_hash,
  )

  -- The verification succeeds exactly when the events, in the order of their sequence numbers, are
  -- an unbroken hash chain that starts at 1.
  pub verify_flight_recorder_iff :
      (events : List TrustEvent)
      → ((verify_flight_recorder sha256_hex events).valid ≡ true)
        ↔ IsChain 1 none (ordered_events events)
  unfolding verify_flight_recorder
  verify_flight_recorder_iff events = (
    check→IsChain (length (ordered_events events)) 1 none (ordered_events events),
    IsChain→check (length (ordered_events events)) 1 none (ordered_events events),
  )

  pub chain-bound :
      (sequence : ℕ) (previous : Option String) (events : List TrustEvent)
      → IsChain sequence previous events
      → All (λ e. e.sequence < sequence + length events) events
  chain-bound sequence previous [] h = tt
  chain-bound sequence previous (e ∷ es) h = (
    omega (arith, h.0),
    All-map _ _ es (λ x k. omega (arith, k))
        (chain-bound (sequence + 1) (some e.event_hash) es h.3),
  )

  -- The end of a chain says where it goes on.
  pub chain-last :
      (sequence : ℕ) (previous : Option String) (e : TrustEvent) (es : List TrustEvent)
      → IsChain sequence previous (e ∷ es)
      → (l : TrustEvent) × (last_event (e ∷ es) ≡ some l)
        × (l.sequence + 1 ≡ sequence + length (e ∷ es))
  chain-last sequence previous e [] h = (e, refl, omega (arith, h.0))
  chain-last sequence previous e (f ∷ es) h =
      let (l, is_last, number) = chain-last (sequence + 1) (some e.event_hash) f es h.3 in
      (l, is_last, omega (arith, number))

  pub IsChain-extend :
      (sequence : ℕ) (previous : Option String) (e : TrustEvent) (es : List TrustEvent)
      (new : TrustEvent)
      → IsChain sequence previous (e ∷ es)
      → new.sequence ≡ next_sequence (last_event (e ∷ es))
      → new.previous_hash ≡ hash_of (last_event (e ∷ es))
      → sha256_hex (event_material new) ≡ new.event_hash
      → IsChain sequence previous ((e ∷ es) ++ new ∷ [])
  IsChain-extend sequence previous e [] new h number link hash =
      (h.0, h.1, h.2, (omega (arith, number, h.0), link, hash, tt))
  IsChain-extend sequence previous e (f ∷ es) new h number link hash = (
    h.0,
    h.1,
    h.2,
    IsChain-extend (sequence + 1) (some e.event_hash) f es new h.3 number link hash,
  )
