-- ===== src/Storage/Files.antt =====
-- `std::fs` as the shard store of storage/src/shard_store.rs uses it: one base directory, in which lie
-- files and directories of files. What lies deeper is left out, since no function reads it. A call that
-- changes something can be refused by the system, and a write can stop in the middle: `faults` says how
-- the next calls end. A read of what is there succeeds.
pub mod Laws
pub mod Size
use dest.Base.{ℕ, Bool, true, false, Option, none, some, List, [], ◌∷◌, take}
use dest.Base.Text.{Bytes, Text}
use dest.Base.HashMap.{HashMap, get, insert, remove}

pub data Fault : Type 0 where
  pass refuse : Fault
  -- A write that ends with an error after so many bytes.
  tear : ℕ → Fault

abbrev pub Files : Type 0
Files = HashMap Bytes

pub data Node : Type 0 where
  file : Bytes → Node
  dir : Files → Node

-- `base` is what the base directory holds, if it exists.
pub record Drive : Type 0 where
  pub base : Option (HashMap Node)
  pub faults : List Fault

abbrev pub next_fault : List Fault → Fault
next_fault [] = Fault.pass
next_fault (f ∷ fs) = f

abbrev pub rest {ℓ} : {A : Type ℓ} → List A → List A
rest [] = []
rest (x ∷ xs) = xs

abbrev pub tick : Drive → Drive
tick drv = record drv { faults = rest drv.faults }

abbrev pub nodes : Option (HashMap Node) → HashMap Node
nodes none = []
nodes (some ns) = ns

abbrev pub node_files : Option Node → Option Files
node_files none = none
node_files (some (Node.file b)) = none
node_files (some (Node.dir fs)) = some fs

-- The files of the directory d.
unfoldable pub files_in : Text → Drive → Option Files
files_in d drv = node_files (get d (nodes drv.base))

abbrev pub get_file : Text → Option Files → Option Bytes
get_file n none = none
get_file n (some fs) = get n fs

-- `std::fs::read` of base/d/n.
unfoldable pub read : Text → Text → Drive → Option Bytes
read d n drv = get_file n (files_in d drv)

abbrev pub is_some {ℓ} : {A : Type ℓ} → Option A → Bool
is_some none = false
is_some (some x) = true

-- `Path::exists` of base/d/n.
abbrev pub exists_file : Text → Text → Drive → Bool
exists_file d n drv = is_some (read d n drv)

unfoldable pub put_files : Text → Files → Drive → Drive
put_files d fs drv = record drv { base = some (insert d (Node.dir fs) (nodes drv.base)) }

-- `create_dir_all` of the base directory.
abbrev pub create_base_in : Fault → Option (HashMap Node) → Drive → Drive × Bool
create_base_in Fault.refuse o drv = (drv, false)
create_base_in (Fault.tear k) o drv = (drv, false)
create_base_in Fault.pass none drv = (record drv { base = some [] }, true)
create_base_in Fault.pass (some ns) drv = (drv, true)

unfoldable pub create_base : Drive → Drive × Bool
create_base drv = create_base_in (next_fault drv.faults) drv.base (tick drv)

-- `create_dir_all` of base/d: an error where a file has that name.
abbrev pub create_in : Fault → Option Node → Text → Drive → Drive × Bool
create_in Fault.refuse o d drv = (drv, false)
create_in (Fault.tear k) o d drv = (drv, false)
create_in Fault.pass none d drv = (put_files d [] drv, true)
create_in Fault.pass (some (Node.file b)) d drv = (drv, false)
create_in Fault.pass (some (Node.dir fs)) d drv = (drv, true)

unfoldable pub create_dir_all : Text → Drive → Drive × Bool
create_dir_all d drv = create_in (next_fault drv.faults) (get d (nodes drv.base)) d (tick drv)

-- `std::fs::write` of base/d/n.
abbrev pub write_in : Fault → Option Files → Text → Text → Bytes → Drive → Drive × Bool
write_in f none d n bytes drv = (drv, false)
write_in Fault.refuse (some fs) d n bytes drv = (drv, false)
write_in (Fault.tear k) (some fs) d n bytes drv =
    (put_files d (insert n (take k bytes) fs) drv, false)
write_in Fault.pass (some fs) d n bytes drv = (put_files d (insert n bytes fs) drv, true)

unfoldable pub write : Text → Text → Bytes → Drive → Drive × Bool
write d n bytes drv = write_in (next_fault drv.faults) (files_in d drv) d n bytes (tick drv)

-- `std::fs::remove_file` of base/d/n, which is there.
abbrev pub remove_in : Fault → Option Files → Text → Text → Drive → Drive × Bool
remove_in f none d n drv = (drv, false)
remove_in Fault.refuse (some fs) d n drv = (drv, false)
remove_in (Fault.tear k) (some fs) d n drv = (drv, false)
remove_in Fault.pass (some fs) d n drv = (put_files d (remove n fs) drv, true)

unfoldable pub remove_file : Text → Text → Drive → Drive × Bool
remove_file d n drv = remove_in (next_fault drv.faults) (files_in d drv) d n (tick drv)
