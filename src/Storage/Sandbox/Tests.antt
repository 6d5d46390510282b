-- ===== src/Storage/Sandbox/Tests.antt =====
-- The theorems on storage/src/sandbox.rs at small inputs.
use dest.Base.{true, some, ◌≡◌, ◌<◌, ◌≤◌, refl}
use dest.Storage.Sandbox.{Sandbox, SandboxType, default_config, activate, platform_sandbox_type}
use dest.Storage.Sandbox.Laws.{IsReached, IsReached-limits, activate-new}

abbrev running : Sandbox
running = record {
  config = default_config;
  sandbox_type = platform_sandbox_type true;
  is_active = true;
}

IsReached-limits_example :
    (0 < 512)
    × (50 ≤ 100)
    × (running.config ≡ default_config)
    × (running.sandbox_type ≡ SandboxType.seccomp_cgroups)
    × (activate running ≡ some running)
IsReached-limits_example =
    IsReached-limits default_config running
      (IsReached.activated IsReached.started (activate-new true default_config)) refl
