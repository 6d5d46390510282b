-- ===== src/Storage/Sandbox/Laws.antt =====
-- When the sandbox starts, and what its filter lets through.
use dest.Base.{
  Bool, true, false, Option, none, some, List, [], ◌∷◌, ◌&&◌, ◌||◌, not, ltb, leb, ◌≤◌, ◌<◌, ◌≡◌,
  inl, inr, refl, sym, ap, if◌then◌else◌, arith, Bool-cases, ◌∙◌,
}
use mathlib.Core.Path.{subst}
use mathlib.Core.Option
use dest.Base.Text.{Text, bytes_eq, bytes_eq_iff}
use dest.Storage.Sandbox.{
  SandboxType, SandboxConfig, Sandbox, platform_sandbox_type, default_seccomp, contains,
  none_contained, dangerous, new, activate, activate_seccomp, activate_cgroups, assert, blocked,
  allowed, activate_type,
}

none_allowed : none_contained blocked allowed ≡ true
unfolding contains bytes_eq
none_allowed = refl

none_contained-disjoint :
    (s : Text) (ss ts : List Text)
    → none_contained ss ts ≡ true
    → contains s ss ≡ true
    → contains s ts ≡ false
unfolding contains
none_contained-disjoint s [] ts h e = cc
none_contained-disjoint s (t ∷ ss) ts h e = elim (Bool-cases (bytes_eq s t)) [
  | inl same ↦ rw ((bytes_eq_iff s t).0 same) (ground (arith, h))
  | inr other ↦ none_contained-disjoint s ss ts (ground (arith, h)) (rw (other) at e)
]

-- No system call that the default filter blocks is one that it allows.
pub blocked-allowed :
    (s : Text)
    → contains s default_seccomp.blocked_syscalls ≡ true
    → contains s default_seccomp.allowed_syscalls ≡ false
unfolding default_seccomp
blocked-allowed s h = none_contained-disjoint s blocked allowed none_allowed h

dangerous_not_allowed : none_contained dangerous allowed ≡ true
unfolding contains bytes_eq
dangerous_not_allowed = refl

abbrev not_linux : SandboxType → Bool
not_linux SandboxType.seccomp_cgroups = false
not_linux SandboxType.wasm = true
not_linux SandboxType.unsandboxed = true

-- Limits that `activate_cgroups` accepts.
pub accepts : SandboxConfig → Bool
accepts c = ltb 0 c.max_memory_mb && leb c.max_cpu_percent 100

checked : (a b : Bool) (k : Option Sandbox) → assert a (assert b k) ≡ (if a && b then k else none)
checked true true k = refl
checked true false k = refl
checked false b k = refl

activate_cgroups-accepts :
    (s : Sandbox) (k : Option Sandbox)
    → activate_cgroups s k ≡ (if accepts s.config then k else none)
unfolding activate_cgroups accepts
activate_cgroups-accepts s k =
    checked (ltb 0 s.config.max_memory_mb) (leb s.config.max_cpu_percent 100) k

activate_type-result :
    (t : SandboxType) (s : Sandbox)
    → activate_type t s
      ≡ (if not_linux t || accepts s.config then some (record s { is_active = true }) else none)
unfolding activate_seccomp default_seccomp
activate_type-result SandboxType.seccomp_cgroups s =
    rw (dangerous_not_allowed) (activate_cgroups-accepts s (some (record s { is_active = true })))
activate_type-result SandboxType.wasm s = refl
activate_type-result SandboxType.unsandboxed s = refl

-- On Linux a new sandbox starts if its memory limit is positive and its processor limit at most 100,
-- and panics otherwise; elsewhere it always starts. A start changes nothing else.
pub activate-new :
    (linux : Bool) (c : SandboxConfig)
    → activate (new linux c) ≡ (
        if not linux || (ltb 0 c.max_memory_mb && leb c.max_cpu_percent 100)
        then some
            (record { config = c; sandbox_type = platform_sandbox_type linux; is_active = true })
        else none)
unfolding activate new platform_sandbox_type accepts
activate-new true c = activate_type-result SandboxType.seccomp_cgroups (new true c)
activate-new false c = activate_type-result SandboxType.wasm (new false c)

-- The sandboxes of a program: a new one, and what `activate` makes of one.
pub data IsReached (linux : Bool) (c : SandboxConfig) : Sandbox → Type 0 where
  started : IsReached linux c (new linux c)
  activated : {s t : Sandbox} → IsReached linux c s → activate s ≡ some t → IsReached linux c t

IsKept : Bool → SandboxConfig → Sandbox → Type 0
IsKept linux c s =
    (s.config ≡ c)
    × (s.sandbox_type ≡ platform_sandbox_type linux)
    × (s.is_active ≡ true → (not linux || accepts c) ≡ true)

not_linux-platform : (linux : Bool) → not_linux (platform_sandbox_type linux) ≡ not linux
unfolding platform_sandbox_type
not_linux-platform true = refl
not_linux-platform false = refl

IsKept-start :
    (linux : Bool) (c : SandboxConfig) (s : Sandbox)
    → IsKept linux c s
    → not_linux s.sandbox_type || accepts s.config ≡ true
    → IsKept linux c (record s { is_active = true })
unfolding IsKept
IsKept-start linux c s h e =
    (h.0, h.1, λ active. rw (sym (not_linux-platform linux), sym h.1, sym h.0) e)

IsKept-activate :
    (linux : Bool) (c : SandboxConfig) (s t : Sandbox)
    → IsKept linux c s
    → activate s ≡ some t
    → IsKept linux c t
unfolding activate
IsKept-activate linux c s t h e =
    let r = sym (activate_type-result s.sandbox_type s) ∙ e in
    elim (Bool-cases (not_linux s.sandbox_type || accepts s.config)) [
      | inl fits ↦
          subst (IsKept linux c)
            (Option.some-injective (record s { is_active = true }) t (rw (fits) at r))
            (IsKept-start linux c s h fits)
      | inr unfit ↦ absurd (Option.none-ne-some t (rw (unfit) at r))
    ]

IsReached-IsKept :
    {linux : Bool} {c : SandboxConfig} {s : Sandbox} → IsReached linux c s → IsKept linux c s
unfolding IsKept new
IsReached-IsKept IsReached.started = (refl, refl, λ e. cc)
IsReached-IsKept (IsReached.activated r e) = IsKept-activate _ _ _ _ (IsReached-IsKept r) e

restarted :
    (s : Sandbox)
    → accepts s.config ≡ true
    → s.is_active ≡ true
    → (if not_linux s.sandbox_type || accepts s.config
        then some (record s { is_active = true })
        else none)
      ≡ some s
restarted s fits on =
    let e : not_linux s.sandbox_type || accepts s.config ≡ true = ground (arith, fits) in
    rw e (ap (λ b. some (record s { is_active = b })) (sym on))

-- Whatever starts were tried on Linux, an active sandbox has a positive memory limit and a processor limit of at most 100, its configuration is the one it was made with and its type that of Linux, and starting it again succeeds and changes nothing.
pub IsReached-limits :
    (c : SandboxConfig) (s : Sandbox)
    → IsReached true c s
    → s.is_active ≡ true
    → (0 < c.max_memory_mb)
      × (c.max_cpu_percent ≤ 100)
      × (s.config ≡ c)
      × (s.sandbox_type ≡ SandboxType.seccomp_cgroups)
      × (activate s ≡ some s)
unfolding IsKept accepts activate platform_sandbox_type
IsReached-limits c s r h =
    let k = IsReached-IsKept r in
    let fits : accepts c ≡ true = k.2 h in
    let again : accepts s.config ≡ true = rw k.0 fits in
    (
      ground (arith, fits),
      ground (arith, fits),
      k.0,
      k.1,
      activate_type-result s.sandbox_type s ∙ restarted s again h,
    )
