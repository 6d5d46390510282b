-- ===== src/Storage/Replication/Deaths.antt =====
-- storage/src/replication.rs, `handle_peer_death`: which chunks it reports, and what it leaves of the
-- dead peer.
use dest.Base.{
  ℕ, ◌<◌, ◌≡◌, ◌↔◌, refl, Bool, true, false, Option, none, some, List, [], ◌∷◌, if◌then◌else◌,
  arith,
}
use mathlib.Core.Option
use dest.Base.Text.{Text, bytes_eq, bytes_eq_iff}
use dest.Base.HashMap.{HashMap, get, remove, values, get-remove, HasUniqueKeys, text_member}
use dest.Storage.Replication.{
  ReplicationState, ReplicationManager, new, sum, check_replication, shards_of, remove_peer,
  needs_repair, bury, handle_peer_death,
}
use dest.Storage.Replication.Laws.{Call, run, run-IsSound}

-- Whether the chunk with this state is reported.
abbrev reported : Text → Option ReplicationState → Bool
reported peer none = false
reported peer (some s) = needs_repair (remove_peer peer s)

text_member-bury_absent :
    (c peer : Text) (states : HashMap ReplicationState)
    → get c states ≡ none
    → text_member c (bury peer states).1 ≡ false
unfolding bury text_member get
text_member-bury_absent c peer [] h = refl
text_member-bury_absent c peer ((d, s) ∷ states) h =
    ground (arith, text_member-bury_absent c peer states)

text_member-bury :
    (c peer : Text) (states : HashMap ReplicationState)
    → HasUniqueKeys states
    → text_member c (bury peer states).1 ≡ reported peer (get c states)
unfolding bury text_member get
text_member-bury c peer [] u = refl
text_member-bury c peer ((d, s) ∷ states) u = ground (
  arith,
  bytes_eq_iff c d,
  text_member-bury_absent d peer states u.0,
  text_member-bury c peer states u.1,
)

get-bury-map :
    (c peer : Text) (states : HashMap ReplicationState)
    → get c (bury peer states).0
      ≡ Option.map (λ (s : ReplicationState). (remove_peer peer s).0) (get c states)
unfolding bury get
get-bury-map c peer [] = refl
get-bury-map c peer ((d, s) ∷ states) = ground (arith, get-bury-map c peer states)

needs_repair_iff :
    (peer : Text) (s : ReplicationState)
    → (needs_repair (remove_peer peer s) ≡ true) ↔ (
        (0 < shards_of peer s)
        × (sum (values (remove peer s.current_replicas)) < s.target_replicas))
unfolding remove_peer check_replication
needs_repair_iff peer s = ground arith

reported_iff :
    (peer : Text) (o : Option ReplicationState)
    → (reported peer o ≡ true) ↔ (
        (s : ReplicationState) × (o ≡ some s)
        × (0 < shards_of peer s)
        × (sum (values (remove peer s.current_replicas)) < s.target_replicas))
reported_iff peer none = ground arith
reported_iff peer (some s) = (
  λ h. let (held, few) = (needs_repair_iff peer s).0 h in (s, refl, held, few),
  λ (t, e, held, few).
      let same = Option.some-injective s t e in rw same ((needs_repair_iff peer t).1 (held, few)),
)

-- With a target of at least one, in a manager that any calls have led to, the death of a peer reports
-- exactly the chunks of which the peer held a shard and whose other shards do not reach the target.
pub handle_peer_death_iff :
    (target : ℕ) (ks : List Call) (c peer : Text)
    → 0 < target
    → let m = run ks (new target) in
      (text_member c (handle_peer_death peer m).1 ≡ true) ↔ (
        (s : ReplicationState) × (get c m.states ≡ some s)
        × (0 < shards_of peer s)
        × (sum (values (remove peer s.current_replicas)) < s.target_replicas))
unfolding handle_peer_death
handle_peer_death_iff target ks c peer h =
    let m = run ks (new target) in
    rw (text_member-bury c peer m.states (run-IsSound target ks h).2)
      (reported_iff peer (get c m.states))

-- After the death of a peer a chunk that was tracked still is, it counts no shards of the peer, and
-- it counts as many shards of every other peer as before.
pub shards_of-handle_peer_death :
    (c peer q : Text) (m : ReplicationManager) {s : ReplicationState}
    → get c m.states ≡ some s
    → (t : ReplicationState) × (get c (handle_peer_death peer m).0.states ≡ some t)
      × (shards_of q t ≡ (if bytes_eq q peer then 0 else shards_of q s))
unfolding handle_peer_death remove_peer
shards_of-handle_peer_death c peer q m {s} found = (
  (remove_peer peer s).0,
  rw (get-bury-map c peer m.states, found) refl,
  rw (get-remove q peer s.current_replicas) (ground arith),
)
