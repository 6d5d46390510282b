-- ===== src/Cli/Commands/Laws.antt =====
-- What the commands do together.
use dest.Base.{
  ℕ, ◌<◌, ◌^◌, ◌+◌, Bool, true, false, Option, none, some, List, [], ◌∷◌, length, All, ◌≡◌, refl,
  sym, ap, ◌∙◌, arith, if◌then◌else◌,
}
use mathlib.Core.Option
use mathlib.Core.List.{append-nil}
use dest.Base.Text.{Bytes, Text}
use dest.Core.Extern.{Blake3, Hex}
use dest.Core.Types as Types
use dest.Core.Types.{as_hex, from_hex-as_hex_id, derived_key_len, MnemonicWordCount}
use dest.Core.Chunking.{chunk_data, chunk_count, generate_chunk_ids}
use dest.Core.Chunking.Laws.{length-chunk_data}
use dest.Core.Recovery.{Bip39, generate_mnemonic, parse_mnemonic, recover_key_from_mnemonic}
use dest.Core.Recovery.Laws.{parse_mnemonic-to_string}
use dest.Billing.Extern.{Chrono, Decimal}
use dest.P2p.Config as P2pConfig
use dest.P2p.Node as Node
use dest.Ledger.Store.{Database}
use dest.Storage.Files.{Drive, create_base, create_dir_all}
use dest.Storage.Shards.{and_then}
use dest.Storage.Shards.Laws.{and_then-ok}
use dest.Cli.Api.{serve}
use dest.Cli.Config.{
  NodeConfig, ConfigJson, Identity, generate, load, read_base, config_json, parse_config,
}
use dest.Cli.Config.Laws.{load-generate}
use dest.Cli.Commands.{
  shards_dir, ledger_dir, cmd_init, cmd_status, status_of, Daemon, World, Started, with_config,
  with_ledger, opened, new_daemon, run_api_server, cmd_start, chunk_lines, cmd_upload, cmd_download,
  KeyAction, print_phrase, cmd_keys, recover_key, cmd_recover,
}

module _ ⦃js : ConfigJson⦄ where
  cmd_init-generate :
      (identity : Identity) (now data_dir : Text) (drv : Drive) (c : NodeConfig)
      → (cmd_init identity now data_dir drv).1 ≡ some c
      → (d : Drive) × (cmd_init identity now data_dir drv ≡ generate identity now data_dir d)
        × ((generate identity now data_dir d).1 ≡ some c)
  unfolding cmd_init
  cmd_init-generate identity now data_dir drv c h =
      let k3 = λ (d : Drive). generate identity now data_dir d in
      let k2 = λ (d : Drive). and_then (create_dir_all ledger_dir d) k3 in
      let k1 = λ (d : Drive). and_then (create_dir_all shards_dir d) k2 in
      let r1 = create_base drv in
      let (ok1, e1) = and_then-ok r1 k1 c h in
      let r2 = create_dir_all shards_dir r1.0 in
      let (ok2, e2) = and_then-ok r2 k2 c (ap (λ r. r.1) (sym e1) ∙ h) in
      let r3 = create_dir_all ledger_dir r2.0 in
      let (ok3, e3) = and_then-ok r3 k3 c (ap (λ r. r.1) (sym (e1 ∙ e2)) ∙ h) in
      let all = e1 ∙ (e2 ∙ e3) in (r3.0, all, ap (λ r. r.1) (sym all) ∙ h)

  status-load :
      (o : Option Bytes) (c : NodeConfig)
      → parse_config o ≡ some c
      → status_of o (parse_config o) ≡ some c
  status-load none c h = h
  status-load (some b) c h = h

  -- After an initialization without an error, in whatever drive, the configuration that it made, with the
  -- new identity in it, is loaded, and the status command finds it.
  pub load-cmd_init :
      (identity : Identity) (now data_dir : Text) (drv : Drive) (c : NodeConfig)
      → (cmd_init identity now data_dir drv).1 ≡ some c
      → (load (cmd_init identity now data_dir drv).0 ≡ some c)
        × (cmd_status (cmd_init identity now data_dir drv).0 ≡ some c)
        × (c.peer_id ≡ identity.peer_id)
  unfolding load cmd_status
  load-cmd_init identity now data_dir drv c h =
      let (d, same, ok) = cmd_init-generate identity now data_dir drv c h in
      let (loaded, fresh) = load-generate identity now data_dir d c ok in
      let loads = ap (λ r. load r.0) same ∙ loaded in
      (
        loads,
        status-load (read_base config_json (cmd_init identity now data_dir drv).0) c loads,
        ap (λ x. x.peer_id) fresh,
      )

  module _ ⦃ch : Chrono⦄ ⦃dc : Decimal⦄ where
    with_config-ok :
        (o : Option NodeConfig) (drv : Drive) (k : Started) (x : Daemon × List Text)
        → (with_config o drv k).1 ≡ some x
        → (c : NodeConfig) × (o ≡ some c) × (k.1 ≡ some x)
    with_config-ok none drv k x h = cc
    with_config-ok (some c) drv k x h = (c, refl, h)

    with_ledger-ok :
        (r : Drive × Option Database) (k : Database → Drive → Started) (x : Daemon × List Text)
        → (with_ledger r k).1 ≡ some x
        → (l : Database) × ((k l r.0).1 ≡ some x)
    with_ledger-ok (drv, none) k x h = cc
    with_ledger-ok (drv, some l) k x h = (l, h)

    run_api_server-ok :
        (listens : Bool) (w : World) (daemon : Daemon) (x : Daemon × List Text)
        → (if listens then some (daemon, serve w.events) else none) ≡ some x
        → some (daemon, serve w.events) ≡ some x
    run_api_server-ok true w daemon x h = h
    run_api_server-ok false w daemon x h = cc

    -- A start that gets as far as to answer requests found a configuration, and its node has the new
    -- identity of this start and the default configuration.
    cmd_start-node :
        (w : World) (drv : Drive) (daemon : Daemon) (answers : List Text)
        → (cmd_start w drv).1 ≡ some (daemon, answers)
        → ((c : NodeConfig) × (load drv ≡ some c))
          × (daemon.node ≡ Node.new w.peer_id P2pConfig.default_config)
          × (answers ≡ serve w.events)
    unfolding cmd_start
    cmd_start-node w drv daemon answers h =
        let k2 = λ (l : Database) (stored : Drive). run_api_server w (new_daemon w l) stored in
        let k1 =
          λ (l : Database) (ready : Drive). and_then (create_dir_all shards_dir ready) (k2 l) in
        let (c, loaded, h1) =
          with_config-ok (load drv) drv (with_ledger (opened (w.connect drv)) k1) (daemon, answers)
            h in
        let (l, h2) = with_ledger-ok (opened (w.connect drv)) k1 (daemon, answers) h1 in
        let r = create_dir_all shards_dir (opened (w.connect drv)).0 in
        let (ok, e) = and_then-ok r (k2 l) (daemon, answers) h2 in
        let h3 =
          run_api_server-ok w.listens w (new_daemon w l) (daemon, answers)
            (ap (λ s. s.1) (sym e) ∙ h2) in
        let p = Option.some-injective (new_daemon w l, serve w.events) (daemon, answers) h3 in
        ((c, loaded), ap (λ q. q.0.node) (sym p), ap (λ q. q.1) (sym p))

module _ ⦃b3 : Blake3⦄ ⦃hx : Hex⦄ where
  downloads :
      (chunks : List Bytes)
      → All (λ id. cmd_download (as_hex id) ≡ some id) (generate_chunk_ids chunks)
  unfolding cmd_download generate_chunk_ids Types.new
  downloads [] = tt
  downloads (c ∷ chunks) = (from_hex-as_hex_id (b3.hash c) (b3.length-hash c), downloads chunks)

  length-chunk_lines :
      (i : ℕ) (chunks : List Bytes)
      → length (chunk_lines i (generate_chunk_ids chunks) chunks) ≡ length chunks
  unfolding generate_chunk_ids
  length-chunk_lines i [] = refl
  length-chunk_lines i (c ∷ chunks) = omega (arith, length-chunk_lines (i + 1) chunks)

  -- An upload of a file of less than 2 ^ 63 bytes prints one line for each of its chunks, and each of their
  -- identifiers, printed in hexadecimal, is one that the download command accepts and reads as itself.
  pub cmd_upload-cmd_download :
      (bytes : Bytes) (replication : ℕ)
      → length bytes < 2 ^ 63
      → (lines : List Text) × (cmd_upload (some bytes) replication ≡ some lines)
        × (length lines ≡ chunk_count (length bytes))
        × All (λ id. cmd_download (as_hex id) ≡ some id) (generate_chunk_ids (chunk_data bytes))
  unfolding cmd_upload
  cmd_upload-cmd_download bytes replication h = (
    chunk_lines 0 (generate_chunk_ids (chunk_data bytes)) (chunk_data bytes),
    refl,
    length-chunk_lines 0 (chunk_data bytes) ∙ length-chunk_data bytes h,
    downloads (chunk_data bytes),
  )

module _ ⦃b : Bip39⦄ where
  abbrev head : List Text → Text
  head [] = []
  head (t ∷ ts) = t

  print_phrase-inv :
      (o : Option b.Mnemonic) (phrase : Text)
      → print_phrase o ≡ some (phrase ∷ [])
      → (m : b.Mnemonic) × (phrase ≡ b.to_string m)
  print_phrase-inv none phrase h = cc
  print_phrase-inv (some m) phrase h =
      (m, sym (ap head (Option.some-injective (b.to_string m ∷ []) (phrase ∷ []) h)))

  -- A phrase that `keys generate` printed recovers a key of 32 bytes.
  pub cmd_recover-cmd_keys :
      (phrase passphrase : Text)
      → cmd_keys KeyAction.generate ≡ some (phrase ∷ [])
      → (key : Bytes) × (cmd_recover phrase passphrase ≡ some key) × (length key ≡ derived_key_len)
  unfolding cmd_keys cmd_recover
  cmd_recover-cmd_keys phrase passphrase h =
      let (m, same) = print_phrase-inv (generate_mnemonic MnemonicWordCount.twelve) phrase h in
      let (parsed, _, size) = parse_mnemonic-to_string m [] [] passphrase tt tt in
      let typed : parse_mnemonic phrase ≡ some m =
        ap parse_mnemonic (same ∙ sym (append-nil (b.to_string m))) ∙ parsed in
      (recover_key_from_mnemonic m passphrase, ap (recover_key passphrase) typed, size)
