-- ===== src/Core/Erasure/Recovery.antt =====
-- core/src/erasure.rs: any three shards give the data back.
use mathlib.Core.Option.{some-injective}
use mathlib.Core.Path.{subst}
use dest.Base.{
  ℕ, zero, suc, ◌-◌, ◌≤◌, ◌<◌, ◌≡◌, refl, sym, ap, ◌∙◌, inl, none, some, Option, List, [], ◌∷◌,
  ◌++◌, length, take, get_elem?, replicate, concat, map, le→ltb, All, All-append, arith,
  length-append,
}
use dest.Core.Extern.{Bytes}
use dest.Core.Types.{rs_data_shards, rs_parity_shards, rs_total_shards}
use dest.Core.Erasure.{
  present, IsPart, IsSized, ReedSolomon, total_len, padded, shard_size, data_shards, encode, place,
  extend, reconstruct,
}
use dest.Core.Erasure.Shards.{
  data_shards-IsSplit, shard_size-pos, replicate-IsSized, total_len-rest,
}
use dest.Core.Erasure.Slots.{IsShardOf, Distinct, AreFree, get_elem?-lt, place-IsPart}

IsPart-none : (shards : List Bytes) → IsPart shards (replicate (length shards) none)
IsPart-none [] = tt
IsPart-none (s ∷ shards) = (inl refl, IsPart-none shards)

get_elem?-replicate {ℓ} :
    {A : Type ℓ} (n i : ℕ) (a : A) → i < n → get_elem? (replicate n a) i ≡ some a
get_elem?-replicate zero i a h = absurd (omega arith)
get_elem?-replicate (suc n) zero a h = refl
get_elem?-replicate (suc n) (suc i) a h = get_elem?-replicate n i a (omega arith)

AreFree-none :
    (shards : List Bytes) (shard_data : List (ℕ × Bytes))
    → length shards ≡ rs_total_shards
    → All (IsShardOf shards) shard_data
    → AreFree (replicate rs_total_shards none) shard_data
AreFree-none shards [] len mem = tt
AreFree-none shards ((i, s) ∷ rest) len mem = (
  get_elem?-replicate {A = Option Bytes} 5 i none (omega (arith, get_elem?-lt shards i mem.0, len)),
  AreFree-none shards rest len mem.1,
)

module _ ⦃rs : ReedSolomon⦄ where
  extend-concat : (ds ps : List Bytes) → extend (take (length ds) (map some (ds ++ ps))) ≡ concat ds
  extend-concat [] ps = refl
  extend-concat (d ∷ ds) ps = ap (λ r. d ++ r) (extend-concat ds ps)

  -- What `encode` makes of non-empty data: a codec's shards, the first three of which are the data.
  record Encoding (bytes : Bytes) : Type 0 where
    pub codec : rs.Codec
    pub made : rs.new rs_data_shards rs_parity_shards ≡ some codec
    pub blank : List Bytes
    pub sized : All (IsSized (shard_size bytes)) blank
    pub blanks : length blank ≡ 5
    pub parity : List Bytes
    pub encoded : rs.encode codec blank ≡ some (data_shards bytes ++ parity)
    pub parities : length parity ≡ 2
    pub encodes : encode bytes ≡ some (data_shards bytes ++ parity)

  encode-Encoding : (bytes : Bytes) → 0 < length bytes → Encoding bytes
  unfolding encode
  encode-Encoding [] h = absurd (omega arith)
  encode-Encoding (b ∷ bs) h =
      let bytes : Bytes = b ∷ bs in
      let (c, made) = rs.new-some in
      let size = shard_size bytes in
      let split = data_shards-IsSplit bytes h in
      let blanks = replicate 2 (replicate size 0) in
      let sized =
        All-append (IsSized size) (data_shards bytes) blanks split.sized
          (replicate-IsSized 2 size) in
      let (parity, e, n) =
        rs.encode-some c size (data_shards bytes) blanks made (shard_size-pos bytes h) split.count
          refl sized in
      record {
        codec = c;
        made = made;
        blank = data_shards bytes ++ blanks;
        sized = sized;
        blanks = omega (arith, length-append (data_shards bytes) blanks, split.count);
        parity = parity;
        encoded = e;
        parities = n;
        encodes = rw made e;
      }

  -- Non-empty data is encoded into five shards.
  pub length-encode :
      (bytes : Bytes)
      → 0 < length bytes
      → (shards : List Bytes) × (encode bytes ≡ some shards) × (length shards ≡ rs_total_shards)
  length-encode bytes h =
      let e = encode-Encoding bytes h in
      let split = data_shards-IsSplit bytes h in
      (
        data_shards bytes ++ e.parity,
        e.encodes,
        omega (arith, length-append (data_shards bytes) e.parity, split.count, e.parities),
      )

  reconstruct-placed :
      (bytes : Bytes) (shard_data : List (ℕ × Bytes)) (placed : List (Option Bytes))
      (h : 0 < length bytes)
      → let e = encode-Encoding bytes h in
        3 ≤ length shard_data
        → place shard_data (replicate rs_total_shards none) ≡ some placed
        → IsPart (data_shards bytes ++ e.parity) placed
        → 3 ≤ present placed
        → reconstruct shard_data ≡ some (padded bytes)
  unfolding reconstruct
  reconstruct-placed bytes shard_data placed h enough done part many =
      let e = encode-Encoding bytes h in
      let split = data_shards-IsSplit bytes h in
      let all =
        rs.reconstruct-some e.codec (shard_size bytes) e.blank (data_shards bytes ++ e.parity)
          placed e.made (shard_size-pos bytes h) e.sized e.blanks e.encoded part many in
      let front : extend (take 3 (map some (data_shards bytes ++ e.parity))) ≡ padded bytes =
        subst
          (λ n.
            extend (take n (map some (data_shards bytes ++ e.parity))) ≡ concat (data_shards bytes))
          split.count (extend-concat (data_shards bytes) e.parity)
        ∙ split.joined in
      rw (le→ltb (length shard_data) 3 enough, e.made, done, all) (ap some front)

  -- Three or more shards of non-empty data, at different indices and in any order, give the data back as
  -- they were padded to be encoded.
  pub reconstruct-padded :
      (bytes : Bytes) (shards : List Bytes) (shard_data : List (ℕ × Bytes))
      → 0 < length bytes
      → encode bytes ≡ some shards
      → All (IsShardOf shards) shard_data
      → Distinct shard_data
      → rs_data_shards ≤ length shard_data
      → reconstruct shard_data ≡ some (padded bytes)
  reconstruct-padded bytes shards shard_data h encoded mem apart enough =
      let e = encode-Encoding bytes h in
      let full = data_shards bytes ++ e.parity in
      let same : shards ≡ full = some-injective shards full (sym encoded ∙ e.encodes) in
      let mem' = subst (λ l. All (IsShardOf l) shard_data) same mem in
      let len : length full ≡ 5 = omega (
        arith,
        length-append (data_shards bytes) e.parity,
        (data_shards-IsSplit bytes h).count,
        e.parities,
      ) in
      let empty : IsPart full (replicate 5 none) =
        subst (λ n. IsPart full (replicate n none)) len (IsPart-none full) in
      let (placed, done, part, n) =
        place-IsPart full shard_data (replicate 5 none) len mem' apart
          (AreFree-none full shard_data len mem') empty in
      let many : 3 ≤ present placed = omega (arith, n) in
      reconstruct-placed bytes shard_data placed h enough done part many

  -- Three or more shards of non-empty data, at different indices and in any order, give the data back,
  -- followed by at most two zeros.
  pub reconstruct-encode :
      (bytes : Bytes) (shards : List Bytes) (shard_data : List (ℕ × Bytes))
      → 0 < length bytes
      → encode bytes ≡ some shards
      → All (IsShardOf shards) shard_data
      → Distinct shard_data
      → rs_data_shards ≤ length shard_data
      → (zeros : ℕ) × (zeros ≤ 2) × (reconstruct shard_data ≡ some (bytes ++ replicate zeros 0))
  reconstruct-encode bytes shards shard_data h encoded mem apart enough = (
    total_len (length bytes) - length bytes,
    total_len-rest (length bytes),
    reconstruct-padded bytes shards shard_data h encoded mem apart enough,
  )
