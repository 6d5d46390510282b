-- ===== src/Cli/Config/Laws.antt =====
-- A configuration that was written without an error is read back.
use dest.Base.{Bool, true, false, Option, none, some, ◌≡◌, refl, ap, ◌∙◌, sym}
use mathlib.Core.Option
use dest.Base.Text.{Bytes, Text}
use dest.Base.HashMap.{HashMap, get, get-insert_same}
use dest.Storage.Files.{Fault, Node, Drive, next_fault, tick}
use dest.Cli.Config.{
  NodeConfig, ConfigJson, Identity, node_bytes, read_base, put_base, write_node, write_base_in,
  write_base, config_json, save, new_config, saved, generate, parse_config, load,
}

read_base-put_base :
    (name : Text) (bytes : Bytes) (ns : HashMap Node) (drv : Drive)
    → read_base name (put_base name bytes ns drv) ≡ some bytes
unfolding read_base put_base
read_base-put_base name bytes ns drv = ap node_bytes (get-insert_same name (Node.file bytes) ns)

write_node-ok :
    (f : Fault) (o : Option Node) (name : Text) (bytes : Bytes) (ns : HashMap Node) (drv : Drive)
    → (write_node f o name bytes ns drv).1 ≡ true
    → read_base name (write_node f o name bytes ns drv).0 ≡ some bytes
write_node-ok f (some (Node.dir fs)) name bytes ns drv h = cc
write_node-ok Fault.refuse none name bytes ns drv h = cc
write_node-ok Fault.refuse (some (Node.file b)) name bytes ns drv h = cc
write_node-ok (Fault.tear k) none name bytes ns drv h = cc
write_node-ok (Fault.tear k) (some (Node.file b)) name bytes ns drv h = cc
write_node-ok Fault.pass none name bytes ns drv h = read_base-put_base name bytes ns drv
write_node-ok Fault.pass (some (Node.file b)) name bytes ns drv h =
    read_base-put_base name bytes ns drv

write_base_in-ok :
    (o : Option (HashMap Node)) (name : Text) (bytes : Bytes) (drv : Drive)
    → (write_base_in o name bytes drv).1 ≡ true
    → read_base name (write_base_in o name bytes drv).0 ≡ some bytes
write_base_in-ok none name bytes drv h = cc
write_base_in-ok (some ns) name bytes drv h =
    write_node-ok (next_fault drv.faults) (get name ns) name bytes ns (tick drv) h

module _ ⦃js : ConfigJson⦄ where
  saved-ok :
      (c d : NodeConfig) (r : Drive × Bool)
      → (saved c r).1 ≡ some d
      → (r.1 ≡ true) × (c ≡ d) × ((saved c r).0 ≡ r.0)
  saved-ok c d (drv, true) h = (refl, Option.some-injective c d h, refl)
  saved-ok c d (drv, false) h = cc

  pub load-generate :
      (identity : Identity) (now data_dir : Text) (drv : Drive) (c : NodeConfig)
      → (generate identity now data_dir drv).1 ≡ some c
      → (load (generate identity now data_dir drv).0 ≡ some c)
        × (c ≡ new_config identity now data_dir)
  unfolding generate load save write_base
  load-generate identity now data_dir drv c h =
      let fresh = new_config identity now data_dir in
      let (ok, same, drive) = saved-ok fresh c (save fresh drv) h in
      (
        ap (λ x. parse_config (read_base config_json x)) drive
            ∙ (ap parse_config
                  (write_base_in-ok drv.base config_json (js.to_string_pretty fresh) drv ok)
                ∙ (js.from_str-to_string fresh ∙ ap some same)),
        sym same,
      )
