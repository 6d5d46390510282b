-- ===== src/Storage/Files/Laws.antt =====
-- What a file holds after each call of the file system.
use dest.Base.{
  ℕ, true, false, Option, none, some, [], ◌&&◌, ap, take, if◌then◌else◌, ◌≡◌, refl, ◌∙◌, arith,
}
use dest.Base.Text.{Bytes, Text, bytes_eq, bytes_eq_iff, bytes_eq_refl, eq_of_bytes_eq}
use mathlib.Core.Option
use mathlib.Core.Path.{subst}
use dest.Base.HashMap.{get, insert, remove, get-insert, get-insert_same, get-remove}
use dest.Storage.Files.{
  Fault, Files, Node, Drive, next_fault, node_files, nodes, files_in, read, put_files, tick,
  create_in, create_dir_all, write_in, write, remove_in, remove_file,
}

-- A directory is one whose files can be asked for.
pub node_files-dir :
    (o : Option Node) (fs : Files) → node_files o ≡ some fs → o ≡ some (Node.dir fs)
node_files-dir none fs h = cc
node_files-dir (some (Node.file b)) fs h = cc
node_files-dir (some (Node.dir gs)) fs h =
    ap (λ x. some (Node.dir x)) (Option.some-injective gs fs h)

pub files_in-put_files :
    (e d : Text) (fs : Files) (drv : Drive)
    → files_in e (put_files d fs drv) ≡ (if bytes_eq e d then some fs else files_in e drv)
unfolding files_in put_files
files_in-put_files e d fs drv = rw (get-insert e d (Node.dir fs) (nodes drv.base)) (ground arith)

pub read-put_files :
    (e m d : Text) (fs : Files) (drv : Drive)
    → read e m (put_files d fs drv) ≡ (if bytes_eq e d then get m fs else read e m drv)
unfolding read
read-put_files e m d fs drv = rw (files_in-put_files e d fs drv) (ground arith)

read-absent :
    (e m d : Text) (drv : Drive)
    → get d (nodes drv.base) ≡ none
    → bytes_eq e d ≡ true
    → read e m drv ≡ none
unfolding read files_in
read-absent e m d drv h same = rw (eq_of_bytes_eq e d same, h) refl

-- A new directory is empty.
read-create_in :
    (f : Fault) (o : Option Node) (e m d : Text) (drv : Drive)
    → get d (nodes drv.base) ≡ o
    → read e m (create_in f o d drv).0 ≡ read e m drv
unfolding get
read-create_in Fault.refuse o e m d drv h = refl
read-create_in (Fault.tear k) o e m d drv h = refl
read-create_in Fault.pass none e m d drv h =
    read-put_files e m d [] drv ∙ ground (arith, read-absent e m d drv h)
read-create_in Fault.pass (some (Node.file b)) e m d drv h = refl
read-create_in Fault.pass (some (Node.dir fs)) e m d drv h = refl

pub read-tick : (e m : Text) (drv : Drive) → read e m (tick drv) ≡ read e m drv
unfolding read files_in
read-tick e m drv = refl

pub read-create_dir_all :
    (e m d : Text) (drv : Drive) → read e m (create_dir_all d drv).0 ≡ read e m drv
unfolding create_dir_all
read-create_dir_all e m d drv =
    read-create_in (next_fault drv.faults) (get d (nodes drv.base)) e m d (tick drv) refl
    ∙ read-tick e m drv

-- A file after a write to it.
pub data Written (before after : Option Bytes) (bytes : Bytes) : Type 0 where
  kept : after ≡ before → Written before after bytes
  torn : (k : ℕ) → after ≡ some (take k bytes) → Written before after bytes
  whole : after ≡ some bytes → Written before after bytes

read-put_same :
    (d n : Text) (b : Bytes) (fs : Files) (drv : Drive)
    → read d n (put_files d (insert n b fs) drv) ≡ some b
read-put_same d n b fs drv =
    read-put_files d n d (insert n b fs) drv ∙ rw (bytes_eq_refl d) (get-insert_same n b fs)

write_in-Written :
    (f : Fault) (o : Option Files) (d n : Text) (bytes : Bytes) (drv : Drive)
    → Written (read d n drv) (read d n (write_in f o d n bytes drv).0) bytes
write_in-Written f none d n bytes drv = Written.kept refl
write_in-Written Fault.refuse (some fs) d n bytes drv = Written.kept refl
write_in-Written (Fault.tear k) (some fs) d n bytes drv =
    Written.torn k (read-put_same d n (take k bytes) fs drv)
write_in-Written Fault.pass (some fs) d n bytes drv = Written.whole (read-put_same d n bytes fs drv)

pub write-Written :
    (d n : Text) (bytes : Bytes) (drv : Drive)
    → Written (read d n drv) (read d n (write d n bytes drv).0) bytes
unfolding write
write-Written d n bytes drv =
    subst (λ o. Written o (read d n (write d n bytes drv).0) bytes) (read-tick d n drv)
      (write_in-Written (next_fault drv.faults) (files_in d drv) d n bytes (tick drv))

-- A write that reports success has written everything.
write_in-ok :
    (f : Fault) (o : Option Files) (d n : Text) (bytes : Bytes) (drv : Drive)
    → (write_in f o d n bytes drv).1 ≡ true
    → read d n (write_in f o d n bytes drv).0 ≡ some bytes
write_in-ok f none d n bytes drv h = cc
write_in-ok Fault.refuse (some fs) d n bytes drv h = cc
write_in-ok (Fault.tear k) (some fs) d n bytes drv h = cc
write_in-ok Fault.pass (some fs) d n bytes drv h = read-put_same d n bytes fs drv

pub write-ok :
    (d n : Text) (bytes : Bytes) (drv : Drive)
    → (write d n bytes drv).1 ≡ true
    → read d n (write d n bytes drv).0 ≡ some bytes
unfolding write
write-ok d n bytes drv h =
    write_in-ok (next_fault drv.faults) (files_in d drv) d n bytes (tick drv) h

-- A removal makes no file.
remove_in-read :
    (f : Fault) (o : Option Files) (e m d n : Text) (drv : Drive)
    → files_in d drv ≡ o
    → read e m (remove_in f o d n drv).0
      ≡ (if (remove_in f o d n drv).1 && bytes_eq e d && bytes_eq m n then none else read e m drv)
unfolding read
remove_in-read f none e m d n drv h = refl
remove_in-read Fault.refuse (some fs) e m d n drv h = refl
remove_in-read (Fault.tear k) (some fs) e m d n drv h = refl
remove_in-read Fault.pass (some fs) e m d n drv h =
    rw (read-put_files e m d (remove n fs) drv, get-remove m n fs)
      (ground (arith, bytes_eq_iff e d))

pub read-remove_file :
    (e m d n : Text) (drv : Drive)
    → read e m (remove_file d n drv).0
      ≡ (if (remove_file d n drv).1 && bytes_eq e d && bytes_eq m n then none else read e m drv)
unfolding remove_file files_in read
read-remove_file e m d n drv =
    remove_in-read (next_fault drv.faults) (files_in d drv) e m d n (tick drv) refl

-- Other files are as they were.
read-put_other :
    (e m d n : Text) (b : Bytes) (fs : Files) (drv : Drive)
    → files_in d drv ≡ some fs
    → bytes_eq e d && bytes_eq m n ≡ false
    → read e m (put_files d (insert n b fs) drv) ≡ read e m drv
unfolding read
read-put_other e m d n b fs drv h other =
    rw (read-put_files e m d (insert n b fs) drv, get-insert m n b fs)
      (ground (arith, bytes_eq_iff e d))

write_in-other :
    (f : Fault) (o : Option Files) (e m d n : Text) (bytes : Bytes) (drv : Drive)
    → files_in d drv ≡ o
    → bytes_eq e d && bytes_eq m n ≡ false
    → read e m (write_in f o d n bytes drv).0 ≡ read e m drv
write_in-other f none e m d n bytes drv h other = refl
write_in-other Fault.refuse (some fs) e m d n bytes drv h other = refl
write_in-other (Fault.tear k) (some fs) e m d n bytes drv h other =
    read-put_other e m d n (take k bytes) fs drv h other
write_in-other Fault.pass (some fs) e m d n bytes drv h other =
    read-put_other e m d n bytes fs drv h other

pub write-other :
    (e m d n : Text) (bytes : Bytes) (drv : Drive)
    → bytes_eq e d && bytes_eq m n ≡ false
    → read e m (write d n bytes drv).0 ≡ read e m drv
unfolding write files_in
write-other e m d n bytes drv other =
    write_in-other (next_fault drv.faults) (files_in d drv) e m d n bytes (tick drv) refl other
    ∙ read-tick e m drv
