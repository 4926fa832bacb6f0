-- ===== src/Access.antt =====
-- Access masks: the constants of internal/smb2/create.go, internal/parent/maxaccess.go and
-- sharemode.go, and the maximal access of internal/parent/maxaccess.go.
pub mod Maximal
use gosamba.Prelude.{ℕ, Bool, true, false, not, ◌&&◌, ◌==◌, if◌then◌else◌, bit_and, bit_or, bit_xor}

abbrev pub access_file_read_data : ℕ
access_file_read_data = 0x00000001

abbrev pub access_file_write_data : ℕ
access_file_write_data = 0x00000002

abbrev pub access_file_append_data : ℕ
access_file_append_data = 0x00000004

abbrev pub access_generic_read : ℕ
access_generic_read = 0x80000000

abbrev pub access_generic_write : ℕ
access_generic_write = 0x40000000

abbrev pub access_generic_execute : ℕ
access_generic_execute = 0x20000000

abbrev pub access_generic_all : ℕ
access_generic_all = 0x10000000

abbrev pub acc_file_read_data : ℕ
acc_file_read_data = 0x00000001

abbrev pub acc_file_write_data : ℕ
acc_file_write_data = 0x00000002

abbrev pub acc_file_append_data : ℕ
acc_file_append_data = 0x00000004

abbrev pub acc_file_read_ea : ℕ
acc_file_read_ea = 0x00000008

abbrev pub acc_file_write_ea : ℕ
acc_file_write_ea = 0x00000010

abbrev pub acc_file_execute : ℕ
acc_file_execute = 0x00000020

abbrev pub acc_file_delete_child : ℕ
acc_file_delete_child = 0x00000040

abbrev pub acc_file_read_attributes : ℕ
acc_file_read_attributes = 0x00000080

abbrev pub acc_file_write_attributes : ℕ
acc_file_write_attributes = 0x00000100

abbrev pub acc_delete : ℕ
acc_delete = 0x00010000

abbrev pub acc_read_control : ℕ
acc_read_control = 0x00020000

abbrev pub acc_write_dac : ℕ
acc_write_dac = 0x00040000

abbrev pub acc_write_owner : ℕ
acc_write_owner = 0x00080000

abbrev pub acc_synchronize : ℕ
acc_synchronize = 0x00100000

infixl 66 ◌∪◌
abbrev ◌∪◌ : ℕ → ℕ → ℕ
a ∪ b = bit_or a b

-- `a & mask != 0`
unfoldable pub has_bits : ℕ → ℕ → Bool
has_bits a mask = not (bit_and a mask == 0)

-- `a &^ mask`
unfoldable pub and_not : ℕ → ℕ → ℕ
and_not a mask = bit_xor a (bit_and a mask)

-- `a &^ mask == 0`
unfoldable pub only_bits : ℕ → ℕ → Bool
unfolding and_not
only_bits a mask = and_not a mask == 0

abbrev pub share_access_read : ℕ
share_access_read = 0x00000001

abbrev pub share_access_write : ℕ
share_access_write = 0x00000002

abbrev pub share_access_delete : ℕ
share_access_delete = 0x00000004

abbrev pub sharing_read_access : ℕ
sharing_read_access =
    access_file_read_data ∪ acc_file_execute ∪ access_generic_read ∪ access_generic_execute
    ∪ access_generic_all

abbrev pub sharing_write_access : ℕ
sharing_write_access =
    access_file_write_data ∪ access_file_append_data ∪ access_generic_write ∪ access_generic_all

abbrev pub sharing_delete_access : ℕ
sharing_delete_access = acc_delete ∪ access_generic_all

abbrev pub sharing_attr_only_access : ℕ
sharing_attr_only_access = acc_file_read_attributes ∪ acc_file_write_attributes ∪ acc_synchronize

abbrev pub access_file_all_access : ℕ
access_file_all_access = 0x001F01FF

abbrev pub access_read_only_share : ℕ
access_read_only_share = 0x001200A9

abbrev pub access_write_bits : ℕ
access_write_bits =
    acc_file_write_data ∪ acc_file_append_data ∪ acc_file_write_ea ∪ acc_file_write_attributes
    ∪ acc_file_delete_child ∪ acc_delete ∪ acc_write_dac ∪ acc_write_owner

unfoldable pub share_access_ceiling : Bool → ℕ
share_access_ceiling read_only =
    if read_only then access_read_only_share else access_file_all_access

unfoldable pub narrow_access_mask : ℕ → Bool → Bool → Bool → ℕ
unfolding and_not
narrow_access_mask ceiling readable writable executable =
    let a = if writable then ceiling else and_not ceiling access_write_bits in
    let b = if executable then a else and_not a acc_file_execute in
    if readable then b else and_not b (acc_file_read_data ∪ acc_file_read_ea)

-- What `faccessat` answers for a mode.
pub data Probe : Type 0 where
  permitted eacces eperm erofs other_error : Probe

-- Only a definite refusal clears a right.
unfoldable pub path_permits : Probe → Bool
path_permits permitted = true
path_permits eacces = false
path_permits eperm = false
path_permits erofs = false
path_permits other_error = true

-- The answers for reading, writing and executing are arguments.
unfoldable pub maximal_access : Bool → Probe → Probe → Probe → ℕ
unfolding has_bits
maximal_access share_read_only r w x =
    let ceiling = share_access_ceiling share_read_only in
    let writable = has_bits ceiling access_write_bits && path_permits w in
    narrow_access_mask ceiling (path_permits r) writable (path_permits x)
