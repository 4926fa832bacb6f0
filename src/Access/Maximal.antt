-- ===== src/Access/Maximal.antt =====
-- The reported mask against what the file's permissions and the share allow.
use gosamba.Prelude.{ℕ, ◌≡◌, Bool, true, not, ◌&&◌, ◌==◌, bit_and, arith}
use gosamba.Access.{
  Probe, path_permits, maximal_access, has_bits, only_bits, share_access_ceiling,
  narrow_access_mask, acc_file_read_data, acc_file_execute, access_write_bits, acc_read_control,
  acc_synchronize, acc_file_read_attributes,
}

-- What a mask may be reported for: its rights by group, and nothing outside the share's ceiling.
pub record Reports (share_read_only : Bool) (r w x : Bool) (mask : ℕ) : Type 0 where
  pub reading : has_bits mask acc_file_read_data ≡ r
  pub executing : has_bits mask acc_file_execute ≡ x
  pub writing : has_bits mask access_write_bits ≡ (w && not share_read_only)
  pub all_writing :
      (bit_and mask access_write_bits == access_write_bits) ≡ (w && not share_read_only)
  pub attributes : has_bits mask acc_file_read_attributes ≡ true
  pub control : (has_bits mask acc_read_control ≡ true) × (has_bits mask acc_synchronize ≡ true)
  pub within : only_bits mask (share_access_ceiling share_read_only) ≡ true

narrow-Reports :
    (ro r w x : Bool)
    → Reports ro r w x (
        narrow_access_mask
          (share_access_ceiling ro)
          r
          (has_bits (share_access_ceiling ro) access_write_bits && w)
          x)
unfolding narrow_access_mask has_bits only_bits share_access_ceiling
narrow-Reports true true true true = ground arith
narrow-Reports _ _ _ _ = ground arith

-- The mask that `maximalAccess` reports: reading and executing exactly if the file permits them, all
-- of the write rights if the file permits writing and the share is not read-only and none of them
-- otherwise, always the attributes, control and synchronize rights, and nothing above the ceiling.
pub maximal_access-Reports :
    (ro : Bool) (r w x : Probe)
    → Reports ro (path_permits r) (path_permits w) (path_permits x) (maximal_access ro r w x)
unfolding maximal_access
maximal_access-Reports ro r w x =
    narrow-Reports ro (path_permits r) (path_permits w) (path_permits x)
