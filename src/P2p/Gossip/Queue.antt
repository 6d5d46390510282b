-- ===== src/P2p/Gossip/Queue.antt =====
-- p2p/src/gossip.rs: the four deques implement one list of messages, from which the earliest message
-- of the highest priority goes first.
use dest.Base.{
  ◌≡◌, refl, Bool, Option, none, some, List, [], ◌∷◌, ◌++◌, true, false, arith, if◌then◌else◌,
}
use dest.P2p.Message.{GossipMessage}
use dest.P2p.Gossip.{MessagePriority, Queues, push_back, pop_critical}

-- The specification: the waiting messages with their priorities, in the order of their arrival.
abbrev pub Waiting : Type 0
Waiting = List (MessagePriority × GossipMessage)

abbrev same_priority : MessagePriority → MessagePriority → Bool
same_priority MessagePriority.low MessagePriority.low = true
same_priority MessagePriority.normal MessagePriority.normal = true
same_priority MessagePriority.high MessagePriority.high = true
same_priority MessagePriority.critical MessagePriority.critical = true
same_priority _ _ = false

-- The messages of one priority.
abbrev pub of_priority : MessagePriority → Waiting → List GossipMessage
of_priority p [] = []
of_priority p ((q, m) ∷ w) = if same_priority p q then m ∷ of_priority p w else of_priority p w

abbrev higher : MessagePriority → MessagePriority → MessagePriority
higher MessagePriority.critical q = MessagePriority.critical
higher MessagePriority.high MessagePriority.critical = MessagePriority.critical
higher MessagePriority.high q = MessagePriority.high
higher MessagePriority.normal MessagePriority.low = MessagePriority.normal
higher MessagePriority.normal q = q
higher MessagePriority.low q = q

abbrev higher_of : MessagePriority → Option MessagePriority → MessagePriority
higher_of p none = p
higher_of p (some q) = higher p q

-- The highest priority that waits.
abbrev pub highest : Waiting → Option MessagePriority
highest [] = none
highest ((p, m) ∷ w) = some (higher_of p (highest w))

-- Takes out the first message of a priority.
abbrev pub take_first : MessagePriority → Waiting → Waiting × Option GossipMessage
take_first p [] = ([], none)
take_first p ((q, m) ∷ w) =
    if same_priority p q then (w, some m) else (let (w', r) = take_first p w in ((q, m) ∷ w', r))

abbrev pub serve : Waiting → Waiting × Option GossipMessage
serve w = elim (highest w) [ none ↦ (w, none) | some p ↦ take_first p w ]

-- The deques hold the messages of their priorities.
abbrev pub Holds : Queues → Waiting → Type 0
Holds q w =
    (q.critical ≡ of_priority MessagePriority.critical w)
    × (q.high ≡ of_priority MessagePriority.high w)
    × (q.normal ≡ of_priority MessagePriority.normal w)
    × (q.low ≡ of_priority MessagePriority.low w)

of_priority-push :
    (p q : MessagePriority) (m : GossipMessage) (w : Waiting)
    → of_priority p (w ++ (q, m) ∷ [])
      ≡ (if same_priority p q then of_priority p w ++ m ∷ [] else of_priority p w)
of_priority-push p q m [] = ground arith
of_priority-push p q m ((r, n) ∷ w) = ground (arith, of_priority-push p q m w)

pub push_back-Holds :
    (p : MessagePriority) (m : GossipMessage) (q : Queues) (w : Waiting)
    → Holds q w
    → Holds (push_back p m q) (w ++ (p, m) ∷ [])
push_back-Holds p m q w h = ground (
  arith,
  of_priority-push MessagePriority.critical p m w,
  of_priority-push MessagePriority.high p m w,
  of_priority-push MessagePriority.normal p m w,
  of_priority-push MessagePriority.low p m w,
)

-- The first priority, from the top, with a message.
abbrev first_held :
    List GossipMessage
    → List GossipMessage
    → List GossipMessage
    → List GossipMessage
    → Option MessagePriority
first_held (_ ∷ _) _ _ _ = some MessagePriority.critical
first_held [] (_ ∷ _) _ _ = some MessagePriority.high
first_held [] [] (_ ∷ _) _ = some MessagePriority.normal
first_held [] [] [] (_ ∷ _) = some MessagePriority.low
first_held [] [] [] [] = none

highest-first_held :
    (w : Waiting)
    → highest w
      ≡ first_held
          (of_priority MessagePriority.critical w)
          (of_priority MessagePriority.high w)
          (of_priority MessagePriority.normal w)
          (of_priority MessagePriority.low w)
highest-first_held [] = refl
highest-first_held ((p, m) ∷ w) = ground (arith, highest-first_held w)

abbrev front : List GossipMessage → Option GossipMessage
front [] = none
front (m ∷ ms) = some m

abbrev rest : List GossipMessage → List GossipMessage
rest [] = []
rest (m ∷ ms) = ms

front-take_first :
    (p : MessagePriority) (w : Waiting) → (take_first p w).1 ≡ front (of_priority p w)
front-take_first p [] = refl
front-take_first p ((r, n) ∷ w) = ground (arith, front-take_first p w)

of_priority-take_first :
    (p q : MessagePriority) (w : Waiting)
    → of_priority q (take_first p w).0
      ≡ (if same_priority q p then rest (of_priority p w) else of_priority q w)
of_priority-take_first p q [] = ground arith
of_priority-take_first p q ((r, n) ∷ w) = ground (arith, of_priority-take_first p q w)

-- Taking the first message of the priority `p` from the deques and from the specification.
take_first-Holds :
    (p : MessagePriority) (w : Waiting)
    → (of_priority MessagePriority.critical (take_first p w).0 ≡ (
        if same_priority MessagePriority.critical p
        then rest (of_priority p w)
        else of_priority MessagePriority.critical w))
      × (of_priority MessagePriority.high (take_first p w).0 ≡ (
          if same_priority MessagePriority.high p
          then rest (of_priority p w)
          else of_priority MessagePriority.high w))
      × (of_priority MessagePriority.normal (take_first p w).0 ≡ (
          if same_priority MessagePriority.normal p
          then rest (of_priority p w)
          else of_priority MessagePriority.normal w))
      × (of_priority MessagePriority.low (take_first p w).0 ≡ (
          if same_priority MessagePriority.low p
          then rest (of_priority p w)
          else of_priority MessagePriority.low w))
take_first-Holds p w = (
  of_priority-take_first p MessagePriority.critical w,
  of_priority-take_first p MessagePriority.high w,
  of_priority-take_first p MessagePriority.normal w,
  of_priority-take_first p MessagePriority.low w,
)

pub pop_critical-serve :
    (q : Queues) (w : Waiting)
    → Holds q w
    → let (q', r) = pop_critical q.critical q in (r ≡ (serve w).1) × Holds q' (serve w).0
pop_critical-serve q w h = ground (
  arith,
  highest-first_held w,
  front-take_first MessagePriority.critical w,
  front-take_first MessagePriority.high w,
  front-take_first MessagePriority.normal w,
  front-take_first MessagePriority.low w,
  take_first-Holds MessagePriority.critical w,
  take_first-Holds MessagePriority.high w,
  take_first-Holds MessagePriority.normal w,
  take_first-Holds MessagePriority.low w,
)
