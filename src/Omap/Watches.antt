-- ===== src/Omap/Watches.antt =====
-- Which watches of a store are given an event.
use ceph_provider.Prelude.{
  ℕ, suc, ◌<◌, true, false, List, [], ◌∷◌, ◌≡◌, refl, ◌∙◌, ◌==◌, ==_iff, ◌&&◌, if◌then◌else◌, arith,
  Bool-cases, inl, inr,
}
use ceph_provider.Omap.{WatchEvent, Hub, member, without, offer, offer_all, watch, stop}

member-without :
    (w h : ℕ) (ns : List ℕ) → member w (without h ns) ≡ (if h == w then false else member w ns)
unfolding member without
member-without w h [] = ground arith
member-without w h (n ∷ ns) = ground (arith, member-without w h ns)

-- Each watch is open once, and has a number that has been given out.
abbrev pub Distinct : List ℕ → Type 0
Distinct [] = Unit
Distinct (n ∷ ns) = (member n ns ≡ false) × Distinct ns

abbrev Below : ℕ → List ℕ → Type 0
Below k [] = Unit
Below k (n ∷ ns) = (n < k) × Below k ns

Below-suc : (k : ℕ) (ns : List ℕ) → Below k ns → Below (suc k) ns
Below-suc k [] b = tt
Below-suc k (n ∷ ns) b = (omega arith, Below-suc k ns b.1)

Below-member : (k : ℕ) (ns : List ℕ) → Below k ns → member k ns ≡ false
unfolding member
Below-member k [] b = refl
Below-member k (n ∷ ns) b = ground (arith, Below-member k ns b.1)

Below-without : (k w : ℕ) (ns : List ℕ) → Below k ns → Below k (without w ns)
unfolding without
Below-without k w [] b = tt
Below-without k w (n ∷ ns) b = elim (Bool-cases (n == w)) [
  | inl y ↦ rw y (Below-without k w ns b.1)
  | inr m ↦ rw m (b.0, Below-without k w ns b.1)
]

Distinct-without : (w : ℕ) (ns : List ℕ) → Distinct ns → Distinct (without w ns)
unfolding without
Distinct-without w [] d = tt
Distinct-without w (n ∷ ns) d = elim (Bool-cases (n == w)) [
  | inl y ↦ rw y (Distinct-without w ns d.1)
  | inr m ↦ rw m (member-without n w ns ∙ ground arith, Distinct-without w ns d.1)
]

-- What happens to the watches of a store: one is opened, one is stopped, a reader comes to wait at
-- its channel, or the store has an event.
pub data HubCall (E : Type 0) : Type 0 where
  opens : HubCall E
  stops waits : ℕ → HubCall E
  sends : WatchEvent E → HubCall E

module _ {E : Type 0} where
  abbrev events_in : ℕ → List (ℕ × WatchEvent E) → List (WatchEvent E)
  events_in w [] = []
  events_in w ((n, evt) ∷ rest) = if n == w then evt ∷ events_in w rest else events_in w rest

  -- What the reader of a watch has been given, latest first.
  abbrev pub events_of : ℕ → Hub E → List (WatchEvent E)
  events_of w hub = events_in w hub.delivered

  pub record IsHub (hub : Hub E) : Type 0 where
    pub distinct : Distinct hub.watches
    pub numbered : Below hub.next hub.watches

  abbrev pub step : HubCall E → Hub E → Hub E
  step opens hub = (watch hub).1
  step (stops w) hub = stop w hub
  step (waits w) hub =
      if member w hub.receivers then hub else record hub { receivers = w ∷ hub.receivers }
  step (sends evt) hub = offer_all evt hub.watches hub

  -- The calls, latest first.
  abbrev pub run : List (HubCall E) → Hub E
  run [] = record { watches = []; next = 0; receivers = []; delivered = [] }
  run (call ∷ calls) = step call (run calls)

  offer-delivers :
      (evt : WatchEvent E) (h w : ℕ) (hub : Hub E)
      → events_of w (offer evt h hub)
        ≡ (if h == w && member h hub.receivers then evt ∷ events_of w hub else events_of w hub)
  unfolding offer
  offer-delivers evt h w hub = ground arith

  offer-receivers :
      (evt : WatchEvent E) (h w : ℕ) (hub : Hub E)
      → (h == w) ≡ false
      → member w (offer evt h hub).receivers ≡ member w hub.receivers
  unfolding offer
  offer-receivers evt h w hub n = elim (Bool-cases (member h hub.receivers)) [
    | inl y ↦ rw y (member-without w h hub.receivers ∙ rw n refl)
    | inr m ↦ rw m refl
  ]

  offer_all-delivers :
      (evt : WatchEvent E) (hs : List ℕ) (w : ℕ) (hub : Hub E)
      → Distinct hs
      → events_of w (offer_all evt hs hub)
        ≡ (if member w hs && member w hub.receivers then evt ∷ events_of w hub else events_of w hub)
  unfolding offer_all member
  offer_all-delivers evt [] w hub d = refl
  offer_all-delivers evt (h ∷ hs) w hub d =
      offer_all-delivers evt hs w (offer evt h hub) d.1 ∙ elim (Bool-cases (h == w)) [
        | inl y ↦ rw y (rw (absent y) (offer-delivers evt h w hub ∙ rw y (same y)))
        | inr n ↦ rw n (rw (offer-receivers evt h w hub n) (rw (kept n) refl))
      ]
    where
      absent : (h == w) ≡ true → member w hs ≡ false
      absent y = rw (← (==_iff h w).0 y) d.0

      same :
          (h == w) ≡ true
          → (if member h hub.receivers then evt ∷ events_of w hub else events_of w hub)
            ≡ (if member w hub.receivers then evt ∷ events_of w hub else events_of w hub)
      same y = rw ((==_iff h w).0 y) refl

      kept : (h == w) ≡ false → events_of w (offer evt h hub) ≡ events_of w hub
      kept n = offer-delivers evt h w hub ∙ rw n refl

  offer-IsHub : (evt : WatchEvent E) (h : ℕ) (hub : Hub E) → IsHub hub → IsHub (offer evt h hub)
  unfolding offer
  offer-IsHub evt h hub v = elim (Bool-cases (member h hub.receivers)) [
    | inl y ↦ rw y (record { distinct = v.distinct; numbered = v.numbered })
    | inr n ↦ rw n v
  ]

  offer_all-IsHub :
      (evt : WatchEvent E) (hs : List ℕ) (hub : Hub E) → IsHub hub → IsHub (offer_all evt hs hub)
  unfolding offer_all
  offer_all-IsHub evt [] hub v = v
  offer_all-IsHub evt (h ∷ hs) hub v =
      offer_all-IsHub evt hs (offer evt h hub) (offer-IsHub evt h hub v)

  step-IsHub : (call : HubCall E) (hub : Hub E) → IsHub hub → IsHub (step call hub)
  unfolding watch stop
  step-IsHub opens hub v = record {
    distinct = (Below-member hub.next hub.watches v.numbered, v.distinct);
    numbered = (omega arith, Below-suc hub.next hub.watches v.numbered);
  }
  step-IsHub (stops w) hub v = record {
    distinct = Distinct-without w hub.watches v.distinct;
    numbered = Below-without hub.next w hub.watches v.numbered;
  }
  step-IsHub (waits w) hub v = elim (Bool-cases (member w hub.receivers)) [
    | inl y ↦ rw y v
    | inr n ↦ rw n (record { distinct = v.distinct; numbered = v.numbered })
  ]
  step-IsHub (sends evt) hub v = offer_all-IsHub evt hub.watches hub v

  run-IsHub : (calls : List (HubCall E)) → IsHub (run calls)
  run-IsHub [] = record { distinct = tt; numbered = tt }
  run-IsHub (call ∷ calls) = step-IsHub call (run calls) (run-IsHub calls)

  -- After any history of watches that are opened and stopped, of readers and of events, an event of
  -- the store is given once to each watch that is open and whose reader waits, and to no other: a
  -- watch whose reader does not wait misses it.
  pub enqueue-delivers :
      (calls : List (HubCall E)) (evt : WatchEvent E) (w : ℕ)
      → events_of w (run (sends evt ∷ calls)) ≡ (
          if member w (run calls).watches && member w (run calls).receivers
          then evt ∷ events_of w (run calls)
          else events_of w (run calls))
  enqueue-delivers calls evt w =
      offer_all-delivers evt (run calls).watches w (run calls) (run-IsHub calls).distinct
