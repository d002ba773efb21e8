-- ===== src/Env.antt =====
-- The environment of the vmioplugin interface (vmiop-env.c): its lists, handles and object tables,
-- the monitor, the registered devices and the guest regions.
pub mod Links
pub mod Devices
pub mod Monitor
pub mod Access
pub mod Regions
pub mod Tables
pub mod Pages
mod Tests
use citrix_vgpu.Prelude.{ℕ, ◌+◌, ◌%◌, ◌^◌, ◌==◌, if◌then◌else◌}

-- `vmiop_error_t`
pub data ErrorCode : Type 0 where
  success inval resource range read_only not_found no_address_space timeout : ErrorCode
  not_allowed_in_callback : ErrorCode

-- `VMIOP_HANDLE_NULL`
abbrev pub handle_null : ℕ
handle_null = 0

-- The handle, the error and `next_handle` after `vmiope_handle_alloc`. Handles are `uint32_t`.
unfoldable pub handle_alloc : ℕ → ℕ × ErrorCode × ℕ
handle_alloc next_handle =
    if (next_handle + 1) % 2 ^ 32 == handle_null
    then (handle_null, resource, next_handle)
    else (next_handle, success, (next_handle + 1) % 2 ^ 32)

unfoldable pub handle_free : ℕ → ErrorCode
handle_free handle = if handle == handle_null then inval else success
