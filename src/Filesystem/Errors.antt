-- ===== src/Filesystem/Errors.antt =====
-- filesystem/filesystem.c: the texts of littlefs' errors.
use pico_common.Common.{ℕ, List}
use pico_common.Http.Text.{codes}

-- `enum lfs_error`, as far as the code names it; -6 is given as a number.
pub data LfsError : Type 0 where
  err_ok err_io err_corrupt err_noent err_exist err_notdir minus_six err_notempty err_badf
        err_fbig :
      LfsError
  err_inval err_nospc err_nomem err_noattr err_nametoolong other_error : LfsError

abbrev pub lfs_error_to_string_enum : LfsError → List ℕ
lfs_error_to_string_enum err_ok = codes "No error"
lfs_error_to_string_enum err_io = codes "Error during device operation"
lfs_error_to_string_enum err_corrupt = codes "Corrupted"
lfs_error_to_string_enum err_noent = codes "No directory entry"
lfs_error_to_string_enum err_exist = codes "Entry already exists"
lfs_error_to_string_enum err_notdir = codes "Entry is not a dir"
lfs_error_to_string_enum minus_six = codes "Entry is a dir"
lfs_error_to_string_enum err_notempty = codes "Dir is not empty"
lfs_error_to_string_enum err_badf = codes "Bad file number"
lfs_error_to_string_enum err_fbig = codes "File too large"
lfs_error_to_string_enum err_inval = codes "Invalid parameter"
lfs_error_to_string_enum err_nospc = codes "No space left on device"
lfs_error_to_string_enum err_nomem = codes "No more memory available"
lfs_error_to_string_enum err_noattr = codes "No data/attr available"
lfs_error_to_string_enum err_nametoolong = codes "File name too long"
lfs_error_to_string_enum other_error = codes "Unknown error"
