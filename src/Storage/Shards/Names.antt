-- ===== src/Storage/Shards/Names.antt =====
-- The names of the files of shards are different.
use dest.Base.{◌==◌, ℕ, false, [], ◌∷◌, drop, length, ◌≡◌, ◌≢◌, sym, ap, ◌∙◌, arith}
use dest.Base.Text.{Text, bytes_eq, bytes_ne_iff, bytes_eq_iff}
use dest.Base.Decimal.{scan, scan-to_decimal}
use dest.Storage.Shards.{shard_path, meta_path, bin, meta_json}

-- What a name says: its number and its ending.
read_name : Text → ℕ × Text
read_name name = scan 0 (drop 6 name)

read_name-shard_path : (i : ℕ) → read_name (shard_path i) ≡ (i, bin)
unfolding read_name shard_path
read_name-shard_path i = scan-to_decimal i b'.' (b'b' ∷ b'i' ∷ b'n' ∷ []) (omega arith)

read_name-meta_path : (i : ℕ) → read_name (meta_path i) ≡ (i, meta_json)
unfolding read_name meta_path
read_name-meta_path i = scan-to_decimal i b'.' (drop 1 meta_json) (omega arith)

meta_json≢bin : meta_json ≢ bin
meta_json≢bin e = omega (arith, ap length e)

pub shard_path-injective : (i j : ℕ) → shard_path i ≡ shard_path j → i ≡ j
shard_path-injective i j e =
    ap (λ p. p.0) (sym (read_name-shard_path i) ∙ (ap read_name e ∙ read_name-shard_path j))

pub meta_path-injective : (i j : ℕ) → meta_path i ≡ meta_path j → i ≡ j
meta_path-injective i j e =
    ap (λ p. p.0) (sym (read_name-meta_path i) ∙ (ap read_name e ∙ read_name-meta_path j))

pub meta_path≢shard_path : (i j : ℕ) → bytes_eq (meta_path i) (shard_path j) ≡ false
meta_path≢shard_path i j = (bytes_ne_iff (meta_path i) (shard_path j)).1 (λ e.
    meta_json≢bin
      (ap (λ p. p.1) (sym (read_name-meta_path i) ∙ (ap read_name e ∙ read_name-shard_path j))))

pub shard_path≢meta_path : (i j : ℕ) → bytes_eq (shard_path i) (meta_path j) ≡ false
shard_path≢meta_path i j =
    (bytes_ne_iff (shard_path i) (meta_path j)).1
      (λ e. (bytes_ne_iff (meta_path j) (shard_path i)).0 (meta_path≢shard_path j i) (sym e))

-- An injective name tests as its number does.
bytes_eq-injective :
    (f : ℕ → Text) → ((i j : ℕ) → f i ≡ f j → i ≡ j) → (i j : ℕ) → bytes_eq (f i) (f j) ≡ (i == j)
bytes_eq-injective f inj i j = ground (arith, bytes_eq_iff (f i) (f j), inj i j, ap f)

pub bytes_eq-shard_path : (i j : ℕ) → bytes_eq (shard_path i) (shard_path j) ≡ (i == j)
bytes_eq-shard_path i j = bytes_eq-injective shard_path shard_path-injective i j

pub bytes_eq-meta_path : (i j : ℕ) → bytes_eq (meta_path i) (meta_path j) ≡ (i == j)
bytes_eq-meta_path i j = bytes_eq-injective meta_path meta_path-injective i j
