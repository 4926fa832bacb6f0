-- ===== src/Examples/Access.antt =====
-- The mask of a file that may be read but not written, on a writable share.
use gosamba.Prelude.{◌≡◌, refl, false}
use gosamba.Access.{
  permitted, eacces, has_bits, and_not, path_permits, share_access_ceiling, narrow_access_mask,
  maximal_access,
}

reads_only : maximal_access false permitted eacces eacces ≡ 0x00120089
unfolding maximal_access has_bits and_not path_permits share_access_ceiling narrow_access_mask
reads_only = refl
