-- ===== src/Storage/Replication/Survival.antt =====
-- storage/src/replication.rs, `handle_peer_death`, with core/src/erasure.rs and encryption.rs: what the
-- survivors of a death can restore where no repair is asked for.
use dest.Base.{
  ℕ, ◌<◌, ◌≤◌, ◌≡◌, lt-cases, inl, inr, false, some, List, [], ◌∷◌, ◌++◌, All, length,
  length-append, arith,
}
use dest.Base.Text.{Bytes, Text}
use dest.Base.HashMap.{HashMap, get, remove, values, text_member}
use dest.Core.Padding.{Rng}
use dest.Core.Types.{DerivedKey, Nonce}
use dest.Core.Encryption.{Aead, encrypt, decrypt}
use dest.Core.Encryption.Roundtrip.{decrypt-reconstruct}
use dest.Core.Erasure.{ReedSolomon, encode, reconstruct, padded}
use dest.Core.Erasure.Slots.{IsShardOf, Distinct}
use dest.Storage.Replication.{ReplicationState, new, sum, shards_of, handle_peer_death}
use dest.Storage.Replication.Laws.{Call, run}
use dest.Storage.Replication.Deaths.{handle_peer_death_iff}

-- The shards that the peers of a map hold, by what each of them holds.
abbrev pub gather : (Text → List (ℕ × Bytes)) → HashMap ℕ → List (ℕ × Bytes)
gather hold [] = []
gather hold ((peer, n) ∷ m) = hold peer ++ gather hold m

-- Each peer holds at least as many shards as it reported.
abbrev pub IsHonest : (Text → List (ℕ × Bytes)) → HashMap ℕ → Type 0
IsHonest hold m = All (λ (r : Text × ℕ). r.1 ≤ length (hold r.0)) m

-- The sum that wraps around is no more than the shards that are there.
sum-le-gather :
    (hold : Text → List (ℕ × Bytes)) (m : HashMap ℕ)
    → IsHonest hold m
    → sum (values m) ≤ length (gather hold m)
unfolding sum values
sum-le-gather hold [] h = omega arith
sum-le-gather hold ((peer, n) ∷ m) h =
    omega (arith, h.0, sum-le-gather hold m h.1, length-append (hold peer) (gather hold m))

-- A peer with shards of a chunk dies, in a manager that any calls have led to, and the chunk, whose target is at least three, is not reported. Then, where the other peers hold as many shards of its encrypted text as they reported, at different indices, the text is rebuilt from them, followed by the zeros that padded it to a multiple of three bytes. Without these zeros, which no function of the program takes off, it decrypts to the chunk.
pub decrypt-handle_peer_death :
    ⦃aead : Aead⦄ ⦃rng : Rng⦄ ⦃rs : ReedSolomon⦄
    → (target : ℕ) (ks : List Call) (c peer : Text) (s : ReplicationState)
    → (hold : Text → List (ℕ × Bytes)) (key : DerivedKey) (nonce : Nonce)
    → (plaintext ciphertext : Bytes) (shards : List Bytes) → 0 < target
    → get c (run ks (new target)).states ≡ some s
    → 3 ≤ s.target_replicas
    → 0 < shards_of peer s
    → text_member c (handle_peer_death peer (run ks (new target))).1 ≡ false
    → encrypt key plaintext ≡ some (nonce, ciphertext)
    → encode ciphertext ≡ some shards
    → IsHonest hold (remove peer s.current_replicas)
    → All (IsShardOf shards) (gather hold (remove peer s.current_replicas))
    → Distinct (gather hold (remove peer s.current_replicas))
    → (reconstruct (gather hold (remove peer s.current_replicas)) ≡ some (padded ciphertext))
      × (decrypt key nonce ciphertext ≡ some plaintext)
decrypt-handle_peer_death target ks c peer s hold key nonce plaintext ciphertext shards h found
      three held silent sealed encoded honest mem apart =
    let left = remove peer s.current_replicas in
    let many : s.target_replicas ≤ sum (values left) =
      elim (lt-cases (sum (values left)) s.target_replicas) [
        | inl few ↦ absurd (cc ((handle_peer_death_iff target ks c peer h).1 (s, found, held, few)))
        | inr enough ↦ enough
      ] in
    decrypt-reconstruct key nonce plaintext ciphertext shards (gather hold left) sealed encoded mem
      apart (omega (arith, many, three, sum-le-gather hold left honest))
