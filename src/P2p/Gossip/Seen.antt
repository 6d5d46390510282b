-- ===== src/P2p/Gossip/Seen.antt =====
-- p2p/src/gossip.rs: `SeenMessages`, and the priorities of messages.
use dest.Base.{
  ℕ, ◌+◌, ◌/◌, ◌≤◌, ◌≡◌, ◌↔◌, refl, ◌∙◌, true, false, List, [], ◌∷◌, length, arith, length-drop,
}
use dest.P2p.Message.{P2pMessage}
use dest.P2p.Gossip.{
  MessagePriority, HashOrder, SeenMessages, new_seen, check_and_mark, contains,
  get_message_priority,
}

abbrev pub rank : MessagePriority → ℕ
rank MessagePriority.low = 0
rank MessagePriority.normal = 1
rank MessagePriority.high = 2
rank MessagePriority.critical = 3

-- A higher subscription weight never lowers the priority of a message.
get_message_priority_mono :
    (m : P2pMessage) (w v : ℕ)
    → w ≤ v
    → rank (get_message_priority m w) ≤ rank (get_message_priority m v)
unfolding get_message_priority
get_message_priority_mono (P2pMessage.heartbeat_ack _ _) w v h = ground arith
get_message_priority_mono (P2pMessage.heartbeat _ _ _) w v h = ground arith
get_message_priority_mono (P2pMessage.node_join _ _ _) w v h = ground arith
get_message_priority_mono _ w v h = ground arith

module _ ⦃o : HashOrder⦄ where
  -- A message is reported as new exactly if it was not marked; afterwards it is marked, so that a
  -- second check of it reports it as seen and changes nothing.
  check_and_mark_twice :
      (seq : ℕ) (s : SeenMessages)
      → let (s', fresh) = check_and_mark seq s in
        ((fresh ≡ true) ↔ (contains seq s ≡ false))
        × (contains seq s' ≡ true)
        × (check_and_mark seq s' ≡ (s', false))
  unfolding check_and_mark contains
  check_and_mark_twice seq s = ground arith

  pub mark_all : List ℕ → SeenMessages → SeenMessages
  mark_all [] s = s
  mark_all (seq ∷ seqs) s = mark_all seqs (check_and_mark seq s).0

  check_and_mark-max_size :
      (seq : ℕ) (s : SeenMessages) → (check_and_mark seq s).0.max_size ≡ s.max_size
  unfolding check_and_mark
  check_and_mark-max_size seq s = ground arith

  check_and_mark-le :
      (seq : ℕ) (s : SeenMessages)
      → 2 ≤ s.max_size
      → length s.seen ≤ s.max_size
      → length (check_and_mark seq s).0.seen ≤ s.max_size
  unfolding check_and_mark
  check_and_mark-le seq s two h =
      ground (arith, length-drop (s.max_size / 2) (o.arrange s.seen), o.length-arrange s.seen)

  mark_all-le :
      (seqs : List ℕ) (s : SeenMessages) (max : ℕ)
      → s.max_size ≡ max
      → 2 ≤ max
      → length s.seen ≤ max
      → length (mark_all seqs s).seen ≤ max
  unfolding mark_all
  mark_all-le [] s max e two h = h
  mark_all-le (seq ∷ seqs) s max e two h =
      mark_all-le seqs (check_and_mark seq s).0 max (check_and_mark-max_size seq s ∙ e) two
        (omega (arith, check_and_mark-le seq s (omega arith) (omega arith)))

  -- With a maximum of two or more, no sequence of checks makes the set larger than the maximum.
  pub mark_all-new_seen :
      (seqs : List ℕ) (max : ℕ) → 2 ≤ max → length (mark_all seqs (new_seen max)).seen ≤ max
  mark_all-new_seen seqs max two =
      mark_all-le seqs (new_seen max) max (unfold new_seen in refl) two
        (unfold new_seen in (omega arith))

  -- With a maximum of one or zero nothing is dropped: every new message makes the set larger.
  pub check_and_mark-small :
      (seq : ℕ) (s : SeenMessages)
      → s.max_size ≤ 1
      → contains seq s ≡ false
      → length (check_and_mark seq s).0.seen ≡ length s.seen + 1
  unfolding check_and_mark contains
  check_and_mark-small seq s small fresh =
      ground (arith, length-drop (s.max_size / 2) (o.arrange s.seen), o.length-arrange s.seen)
