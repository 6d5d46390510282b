-- ===== src/Storage/Shards/Tests/Json.antt =====
-- A format for the metadata of shards at hand: its length, then each text after its own length.
use dest.Base.{
  ℕ, Option, none, some, [], ◌∷◌, ◌++◌, length, take, drop, replicate, ◌==◌, ◌≡◌, ◌<◌, refl, arith,
  if◌then◌else◌, suc, zero, length-take, take-length-append, drop-length-append, length-replicate,
  ==-refl,
}
use dest.Core.Extern.{Blake3, Hex, Bytes, Text}
use dest.Storage.Shards.{ShardMeta, MetaJson}

instance abbrev pub blake3 : Blake3
blake3 = record {
  hash = λ b. replicate 32 (length b);
  length-hash = λ b. length-replicate 32 (length b);
}

instance abbrev pub hex : Hex
hex = record { encode = λ b. b; decode = λ t. some t; decode-encode = λ b. refl }

abbrev pub field : Text → Bytes → Bytes
field t cs = length t ∷ (t ++ cs)

abbrev pub read_field : Bytes → Text × Bytes
read_field [] = ([], [])
read_field (n ∷ cs) = (take n cs, drop n cs)

abbrev pub body : ShardMeta → Bytes
body m =
    field m.chunk_id (
      field m.blake3_hash
        (field m.created_at (field m.last_verified (m.shard_index ∷ m.size ∷ []))))

abbrev pub finish : Text → Text → Text → Text → Bytes → Option ShardMeta
finish a b c d (i ∷ n ∷ []) = some (record {
  chunk_id = a;
  shard_index = i;
  size = n;
  blake3_hash = b;
  created_at = c;
  last_verified = d;
})
finish a b c d cs = none

abbrev pub parse : Bytes → Option ShardMeta
parse cs =
    let (a, r) = read_field cs in
    let (b, s) = read_field r in
    let (c, t) = read_field s in let (d, u) = read_field t in finish a b c d u

pub parse-body : (m : ShardMeta) → parse (body m) ≡ some m
parse-body m =
    let r4 : Bytes = m.shard_index ∷ m.size ∷ [] in
    let r3 = field m.last_verified r4 in
    let r2 = field m.created_at r3 in
    let r1 = field m.blake3_hash r2 in
    rw
      (
        take-length-append m.chunk_id r1,
        drop-length-append m.chunk_id r1,
        take-length-append m.blake3_hash r2,
        drop-length-append m.blake3_hash r2,
        take-length-append m.created_at r3,
        drop-length-append m.created_at r3,
        take-length-append m.last_verified r4,
        drop-length-append m.last_verified r4,
      )
      refl

abbrev pub from_str : Bytes → Option ShardMeta
from_str [] = none
from_str (n ∷ cs) = if n == length cs then parse cs else none

pub from_str-take :
    (n k : ℕ) (cs : Bytes) → k < suc (length cs) → n ≡ length cs → from_str (take k (n ∷ cs)) ≡ none
from_str-take n zero cs h e = refl
from_str-take n (suc k) cs h e = ground (arith, length-take k cs, h, e)

instance abbrev pub json : MetaJson
json = record {
  to_string_pretty = λ m. length (body m) ∷ body m;
  from_str = from_str;
  from_str-to_string = λ m. rw (==-refl (length (body m))) (parse-body m);
  from_str-take = λ m k h. from_str-take (length (body m)) k (body m) h refl;
}
