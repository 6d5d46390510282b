-- ===== src/Storage/Sandbox.antt =====
-- storage/src/sandbox.rs: the sandbox of a host. `linux` is the target system, fixed when the program is
-- built. A panic of an `assert!` is `none`; no function returns an error. Log lines are left out.
pub mod Laws
mod Tests
use dest.Base.{
  ℕ, Bool, true, false, Option, none, some, List, [], ◌∷◌, ◌&&◌, not, ltb, leb, length,
  if◌then◌else◌,
}
use dest.Base.Text.{Text, bytes_eq}

pub data SandboxType : Type 0 where
  seccomp_cgroups wasm unsandboxed : SandboxType

-- `SandboxType::None` is `unsandboxed`, since `none` is taken.
pub platform_sandbox_type : Bool → SandboxType
platform_sandbox_type true = SandboxType.seccomp_cgroups
platform_sandbox_type false = SandboxType.wasm

pub record SandboxConfig : Type 0 where
  pub max_memory_mb : ℕ
  pub max_cpu_percent : ℕ
  pub read_only_paths : List Text
  pub write_path : Text
  pub allow_network : Bool
  pub allow_exec : Bool

-- "/tmp/vaultkeeper-sandbox"
abbrev pub sandbox_path : Text
sandbox_path =
    b'/' ∷ b't' ∷ b'm' ∷ b'p' ∷ b'/' ∷ b'v' ∷ b'a' ∷ b'u' ∷ b'l' ∷ b't' ∷ b'k' ∷ b'e' ∷ b'e' ∷ b'p'
    ∷ b'e' ∷ b'r' ∷ b'-' ∷ b's' ∷ b'a' ∷ b'n' ∷ b'd' ∷ b'b' ∷ b'o' ∷ b'x' ∷ []

-- `SandboxConfig::default`
abbrev pub default_config : SandboxConfig
default_config = record {
  max_memory_mb = 512;
  max_cpu_percent = 50;
  read_only_paths = [];
  write_path = sandbox_path;
  allow_network = false;
  allow_exec = false;
}

pub record SeccompConfig : Type 0 where
  pub allowed_syscalls : List Text
  pub blocked_syscalls : List Text

-- read, write, openat, close, fstat, lseek, mmap, munmap, brk, exit, exit_group, futex, epoll_wait,
-- epoll_ctl, epoll_create1, statx, newfstatat, getrandom
abbrev pub allowed : List Text
allowed =
    (b'r' ∷ b'e' ∷ b'a' ∷ b'd' ∷ [])
    ∷ (b'w' ∷ b'r' ∷ b'i' ∷ b't' ∷ b'e' ∷ [])
    ∷ (b'o' ∷ b'p' ∷ b'e' ∷ b'n' ∷ b'a' ∷ b't' ∷ [])
    ∷ (b'c' ∷ b'l' ∷ b'o' ∷ b's' ∷ b'e' ∷ [])
    ∷ (b'f' ∷ b's' ∷ b't' ∷ b'a' ∷ b't' ∷ [])
    ∷ (b'l' ∷ b's' ∷ b'e' ∷ b'e' ∷ b'k' ∷ [])
    ∷ (b'm' ∷ b'm' ∷ b'a' ∷ b'p' ∷ [])
    ∷ (b'm' ∷ b'u' ∷ b'n' ∷ b'm' ∷ b'a' ∷ b'p' ∷ [])
    ∷ (b'b' ∷ b'r' ∷ b'k' ∷ [])
    ∷ (b'e' ∷ b'x' ∷ b'i' ∷ b't' ∷ [])
    ∷ (b'e' ∷ b'x' ∷ b'i' ∷ b't' ∷ b'_' ∷ b'g' ∷ b'r' ∷ b'o' ∷ b'u' ∷ b'p' ∷ [])
    ∷ (b'f' ∷ b'u' ∷ b't' ∷ b'e' ∷ b'x' ∷ [])
    ∷ (b'e' ∷ b'p' ∷ b'o' ∷ b'l' ∷ b'l' ∷ b'_' ∷ b'w' ∷ b'a' ∷ b'i' ∷ b't' ∷ [])
    ∷ (b'e' ∷ b'p' ∷ b'o' ∷ b'l' ∷ b'l' ∷ b'_' ∷ b'c' ∷ b't' ∷ b'l' ∷ [])
    ∷ (b'e' ∷ b'p' ∷ b'o' ∷ b'l' ∷ b'l' ∷ b'_' ∷ b'c' ∷ b'r' ∷ b'e' ∷ b'a' ∷ b't' ∷ b'e' ∷ b'1'
        ∷ [])
    ∷ (b's' ∷ b't' ∷ b'a' ∷ b't' ∷ b'x' ∷ [])
    ∷ (b'n' ∷ b'e' ∷ b'w' ∷ b'f' ∷ b's' ∷ b't' ∷ b'a' ∷ b't' ∷ b'a' ∷ b't' ∷ [])
    ∷ (b'g' ∷ b'e' ∷ b't' ∷ b'r' ∷ b'a' ∷ b'n' ∷ b'd' ∷ b'o' ∷ b'm' ∷ [])
    ∷ []

-- fork, clone, execve, execveat, socket, connect, bind, listen, accept, mount, umount, ptrace, kill,
-- setuid, setgid
abbrev pub blocked : List Text
blocked =
    (b'f' ∷ b'o' ∷ b'r' ∷ b'k' ∷ [])
    ∷ (b'c' ∷ b'l' ∷ b'o' ∷ b'n' ∷ b'e' ∷ [])
    ∷ (b'e' ∷ b'x' ∷ b'e' ∷ b'c' ∷ b'v' ∷ b'e' ∷ [])
    ∷ (b'e' ∷ b'x' ∷ b'e' ∷ b'c' ∷ b'v' ∷ b'e' ∷ b'a' ∷ b't' ∷ [])
    ∷ (b's' ∷ b'o' ∷ b'c' ∷ b'k' ∷ b'e' ∷ b't' ∷ [])
    ∷ (b'c' ∷ b'o' ∷ b'n' ∷ b'n' ∷ b'e' ∷ b'c' ∷ b't' ∷ [])
    ∷ (b'b' ∷ b'i' ∷ b'n' ∷ b'd' ∷ [])
    ∷ (b'l' ∷ b'i' ∷ b's' ∷ b't' ∷ b'e' ∷ b'n' ∷ [])
    ∷ (b'a' ∷ b'c' ∷ b'c' ∷ b'e' ∷ b'p' ∷ b't' ∷ [])
    ∷ (b'm' ∷ b'o' ∷ b'u' ∷ b'n' ∷ b't' ∷ [])
    ∷ (b'u' ∷ b'm' ∷ b'o' ∷ b'u' ∷ b'n' ∷ b't' ∷ [])
    ∷ (b'p' ∷ b't' ∷ b'r' ∷ b'a' ∷ b'c' ∷ b'e' ∷ [])
    ∷ (b'k' ∷ b'i' ∷ b'l' ∷ b'l' ∷ [])
    ∷ (b's' ∷ b'e' ∷ b't' ∷ b'u' ∷ b'i' ∷ b'd' ∷ [])
    ∷ (b's' ∷ b'e' ∷ b't' ∷ b'g' ∷ b'i' ∷ b'd' ∷ [])
    ∷ []

-- `SeccompConfig::default`
pub default_seccomp : SeccompConfig
default_seccomp = record { allowed_syscalls = allowed; blocked_syscalls = blocked }

pub record Sandbox : Type 0 where
  pub config : SandboxConfig
  pub sandbox_type : SandboxType
  pub is_active : Bool

-- `Sandbox::new`
pub new : Bool → SandboxConfig → Sandbox
new linux config = record {
  config = config;
  sandbox_type = platform_sandbox_type linux;
  is_active = false;
}

-- `Vec::contains`
pub contains : Text → List Text → Bool
contains s [] = false
contains s (t ∷ ts) = if bytes_eq s t then true else contains s ts

-- fork, clone, execve, execveat, socket, connect
abbrev pub dangerous : List Text
dangerous =
    (b'f' ∷ b'o' ∷ b'r' ∷ b'k' ∷ [])
    ∷ (b'c' ∷ b'l' ∷ b'o' ∷ b'n' ∷ b'e' ∷ [])
    ∷ (b'e' ∷ b'x' ∷ b'e' ∷ b'c' ∷ b'v' ∷ b'e' ∷ [])
    ∷ (b'e' ∷ b'x' ∷ b'e' ∷ b'c' ∷ b'v' ∷ b'e' ∷ b'a' ∷ b't' ∷ [])
    ∷ (b's' ∷ b'o' ∷ b'c' ∷ b'k' ∷ b'e' ∷ b't' ∷ [])
    ∷ (b'c' ∷ b'o' ∷ b'n' ∷ b'n' ∷ b'e' ∷ b'c' ∷ b't' ∷ [])
    ∷ []

abbrev pub none_contained : List Text → List Text → Bool
none_contained [] names = true
none_contained (s ∷ ss) names = not (contains s names) && none_contained ss names

-- `assert!`, then the rest.
abbrev pub assert : Bool → Option Sandbox → Option Sandbox
assert true k = k
assert false k = none

-- Before the rest of `activate`, which is an argument.
pub activate_seccomp : Option Sandbox → Option Sandbox
activate_seccomp k = assert (none_contained dangerous default_seccomp.allowed_syscalls) k

pub activate_cgroups : Sandbox → Option Sandbox → Option Sandbox
activate_cgroups s k =
    assert (ltb 0 s.config.max_memory_mb) (assert (leb s.config.max_cpu_percent 100) k)

abbrev pub activate_type : SandboxType → Sandbox → Option Sandbox
activate_type SandboxType.seccomp_cgroups s =
    activate_seccomp (activate_cgroups s (some (record s { is_active = true })))
activate_type SandboxType.wasm s = some (record s { is_active = true })
activate_type SandboxType.unsandboxed s = some (record s { is_active = true })

pub activate : Sandbox → Option Sandbox
activate s = activate_type s.sandbox_type s

pub is_network_blocked : Sandbox → Bool
is_network_blocked s = not s.config.allow_network

pub is_exec_blocked : Sandbox → Bool
is_exec_blocked s = not s.config.allow_exec

abbrev pub allowed_syscall_count : ℕ
allowed_syscall_count = length default_seccomp.allowed_syscalls

abbrev pub blocked_syscall_count : ℕ
blocked_syscall_count = length default_seccomp.blocked_syscalls

abbrev pub isolates : SandboxType → Bool
isolates SandboxType.seccomp_cgroups = true
isolates SandboxType.wasm = true
isolates SandboxType.unsandboxed = false

pub verify_host_isolation : Bool → Bool
verify_host_isolation linux = isolates (platform_sandbox_type linux)
