-- ===== src/App/Table.antt =====
-- The table of the app (fsw/platform_inc/sntp_table.h) and its constants (fsw/src/sntp.h). The app
-- registers none: the unit tests alone use them.
use Prim.Native.String.{String}
use cfe_sntp.Base.{ℕ, ℤ, negsuc}

-- `SNTP_Table_t`
pub record Table : Type 0 where
  pub int1 : ℕ  -- uint16
  pub int2 : ℕ  -- uint16

abbrev pub number_of_tables : ℕ
number_of_tables = 1

abbrev pub table_file : String
table_file = "/cf/sntp_tbl.tbl"

-- -1
abbrev pub table_out_of_range_err_code : ℤ
table_out_of_range_err_code = negsuc 0

abbrev pub tbl_element_1_max : ℕ
tbl_element_1_max = 10
