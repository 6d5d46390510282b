-- ===== src/Storage/Files/Size.antt =====
-- How many bytes the files of the base directory hold, after each call of the file system.
use dest.Base.{ℕ, ◌+◌, ◌≡◌, refl, sym, ap, ◌∙◌, true, Option, none, some, [], length, take, arith}
use dest.Base.Text.{Bytes, Text}
use dest.Base.HashMap.{
  get, insert, remove, AllValues, AllValues-insert, AllValues-get, HasUniqueKeys,
  insert-HasUniqueKeys, remove-HasUniqueKeys,
}
use dest.Base.HashMap.Weight.{weigh, weigh_option, weigh-insert, weigh-remove}
use dest.Storage.Files.{
  Fault, Files, Node, Drive, next_fault, nodes, files_in, read, get_file, put_files, tick,
  create_in, create_dir_all, write_in, write, remove_in, remove_file,
}
use dest.Storage.Files.Laws.{node_files-dir}

abbrev pub node_len : Node → ℕ
node_len (Node.file b) = 0
node_len (Node.dir fs) = weigh length fs

-- What the files in the directories hold.
unfoldable pub drive_len : Drive → ℕ
drive_len drv = weigh node_len (nodes drv.base)

-- The size of a file, 0 where there is none.
abbrev pub size_of : Option Bytes → ℕ
size_of o = weigh_option length o

-- No directory has two files of one name.
abbrev pub IsTidyNode : Node → Type 0
IsTidyNode (Node.file b) = Unit
IsTidyNode (Node.dir fs) = HasUniqueKeys fs

abbrev pub IsTidy : Drive → Type 0
IsTidy drv = AllValues IsTidyNode (nodes drv.base)

drive_len-put_files :
    (d : Text) (fs gs : Files) (drv : Drive)
    → files_in d drv ≡ some fs
    → drive_len (put_files d gs drv) + weigh length fs ≡ drive_len drv + weigh length gs
unfolding drive_len put_files files_in
drive_len-put_files d fs gs drv h =
    ap (λ o. weigh node_len (insert d (Node.dir gs) (nodes drv.base)) + weigh_option node_len o)
      (sym (node_files-dir (get d (nodes drv.base)) fs h))
    ∙ weigh-insert node_len d (Node.dir gs) (nodes drv.base)

put_files-IsTidy :
    (d : Text) (fs : Files) (drv : Drive)
    → HasUniqueKeys fs
    → IsTidy drv
    → IsTidy (put_files d fs drv)
unfolding put_files
put_files-IsTidy d fs drv u h = AllValues-insert IsTidyNode d (Node.dir fs) (nodes drv.base) u h

files_in-HasUniqueKeys :
    (d : Text) (fs : Files) (drv : Drive) → IsTidy drv → files_in d drv ≡ some fs → HasUniqueKeys fs
unfolding files_in
files_in-HasUniqueKeys d fs drv t h =
    AllValues-get IsTidyNode d (Node.dir fs) (nodes drv.base) t
      (node_files-dir (get d (nodes drv.base)) fs h)

-- Making a directory.
drive_len-create_in :
    (f : Fault) (o : Option Node) (d : Text) (drv : Drive)
    → get d (nodes drv.base) ≡ o
    → drive_len (create_in f o d drv).0 ≡ drive_len drv
unfolding drive_len put_files
drive_len-create_in Fault.refuse o d drv g = refl
drive_len-create_in (Fault.tear k) o d drv g = refl
drive_len-create_in Fault.pass none d drv g =
    let e = weigh-insert node_len d (Node.dir []) (nodes drv.base) in
    let z : weigh_option node_len (get d (nodes drv.base)) ≡ 0 = rw g refl in omega (arith, e, z)
drive_len-create_in Fault.pass (some (Node.file b)) d drv g = refl
drive_len-create_in Fault.pass (some (Node.dir fs)) d drv g = refl

pub drive_len-create_dir_all :
    (d : Text) (drv : Drive) → drive_len (create_dir_all d drv).0 ≡ drive_len drv
unfolding create_dir_all drive_len
drive_len-create_dir_all d drv =
    drive_len-create_in (next_fault drv.faults) (get d (nodes drv.base)) d (tick drv) refl

create_in-IsTidy :
    (f : Fault) (o : Option Node) (d : Text) (drv : Drive)
    → IsTidy drv
    → IsTidy (create_in f o d drv).0
create_in-IsTidy Fault.refuse o d drv t = t
create_in-IsTidy (Fault.tear k) o d drv t = t
create_in-IsTidy Fault.pass none d drv t = put_files-IsTidy d [] drv tt t
create_in-IsTidy Fault.pass (some (Node.file b)) d drv t = t
create_in-IsTidy Fault.pass (some (Node.dir fs)) d drv t = t

pub create_dir_all-IsTidy : (d : Text) (drv : Drive) → IsTidy drv → IsTidy (create_dir_all d drv).0
unfolding create_dir_all
create_dir_all-IsTidy d drv t =
    create_in-IsTidy (next_fault drv.faults) (get d (nodes drv.base)) d (tick drv) t

-- A write that reports success: the file's new content counts in place of the old one.
drive_len-write_in :
    (f : Fault) (o : Option Files) (d n : Text) (b : Bytes) (drv : Drive)
    → files_in d drv ≡ o
    → (write_in f o d n b drv).1 ≡ true
    → drive_len (write_in f o d n b drv).0 + size_of (get_file n o) ≡ drive_len drv + length b
drive_len-write_in f none d n b drv g h = cc
drive_len-write_in Fault.refuse (some fs) d n b drv g h = cc
drive_len-write_in (Fault.tear k) (some fs) d n b drv g h = cc
drive_len-write_in Fault.pass (some fs) d n b drv g h =
    let moved = drive_len-put_files d fs (insert n b fs) drv g in
    let grown = weigh-insert length n b fs in omega (arith, moved, grown)

pub drive_len-write :
    (d n : Text) (b : Bytes) (drv : Drive)
    → (write d n b drv).1 ≡ true
    → drive_len (write d n b drv).0 + size_of (read d n drv) ≡ drive_len drv + length b
unfolding write read files_in drive_len
drive_len-write d n b drv h =
    drive_len-write_in (next_fault drv.faults) (files_in d drv) d n b (tick drv) refl h

write_in-IsTidy :
    (f : Fault) (o : Option Files) (d n : Text) (b : Bytes) (drv : Drive)
    → files_in d drv ≡ o
    → IsTidy drv
    → IsTidy (write_in f o d n b drv).0
write_in-IsTidy f none d n b drv g t = t
write_in-IsTidy Fault.refuse (some fs) d n b drv g t = t
write_in-IsTidy (Fault.tear k) (some fs) d n b drv g t =
    put_files-IsTidy d (insert n (take k b) fs) drv
      (insert-HasUniqueKeys n (take k b) fs (files_in-HasUniqueKeys d fs drv t g)) t
write_in-IsTidy Fault.pass (some fs) d n b drv g t =
    put_files-IsTidy d (insert n b fs) drv
      (insert-HasUniqueKeys n b fs (files_in-HasUniqueKeys d fs drv t g)) t

pub write-IsTidy : (d n : Text) (b : Bytes) (drv : Drive) → IsTidy drv → IsTidy (write d n b drv).0
unfolding write files_in
write-IsTidy d n b drv t =
    write_in-IsTidy (next_fault drv.faults) (files_in d drv) d n b (tick drv) refl t

-- A removal that reports success: the file no longer counts.
drive_len-remove_in :
    (f : Fault) (o : Option Files) (d n : Text) (drv : Drive)
    → files_in d drv ≡ o
    → IsTidy drv
    → (remove_in f o d n drv).1 ≡ true
    → drive_len (remove_in f o d n drv).0 + size_of (get_file n o) ≡ drive_len drv
drive_len-remove_in f none d n drv g t h = cc
drive_len-remove_in Fault.refuse (some fs) d n drv g t h = cc
drive_len-remove_in (Fault.tear k) (some fs) d n drv g t h = cc
drive_len-remove_in Fault.pass (some fs) d n drv g t h =
    let moved = drive_len-put_files d fs (remove n fs) drv g in
    let shrunk = weigh-remove length n fs (files_in-HasUniqueKeys d fs drv t g) in
    omega (arith, moved, shrunk)

pub drive_len-remove_file :
    (d n : Text) (drv : Drive)
    → IsTidy drv
    → (remove_file d n drv).1 ≡ true
    → drive_len (remove_file d n drv).0 + size_of (read d n drv) ≡ drive_len drv
unfolding remove_file read files_in drive_len
drive_len-remove_file d n drv t h =
    drive_len-remove_in (next_fault drv.faults) (files_in d drv) d n (tick drv) refl t h

remove_in-IsTidy :
    (f : Fault) (o : Option Files) (d n : Text) (drv : Drive)
    → files_in d drv ≡ o
    → IsTidy drv
    → IsTidy (remove_in f o d n drv).0
remove_in-IsTidy f none d n drv g t = t
remove_in-IsTidy Fault.refuse (some fs) d n drv g t = t
remove_in-IsTidy (Fault.tear k) (some fs) d n drv g t = t
remove_in-IsTidy Fault.pass (some fs) d n drv g t =
    put_files-IsTidy d (remove n fs) drv
      (remove-HasUniqueKeys n fs (files_in-HasUniqueKeys d fs drv t g)) t

pub remove_file-IsTidy : (d n : Text) (drv : Drive) → IsTidy drv → IsTidy (remove_file d n drv).0
unfolding remove_file files_in
remove_file-IsTidy d n drv t =
    remove_in-IsTidy (next_fault drv.faults) (files_in d drv) d n (tick drv) refl t
