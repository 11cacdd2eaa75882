-- ===== src/UnitTest/Declared.antt =====
-- The test cases of unit-test/coveragetest/coveragetest_sample_app.c for functions that fsw/src/sntp.h
-- declares and no file defines. Such a function is a parameter.
use Prim.Native.String.{String}
use cfe_sntp.Base.{ℕ, suc, ◌+◌, Bool, List, [], ◌∷◌, ℤ, ◌==◌, ◌==ℤ◌}
use cfe_sntp.Platform.{Platform, Call}
use cfe_sntp.World.{World, M}
use cfe_sntp.App.{SntpData}
use cfe_sntp.App.Table.{Table, table_out_of_range_err_code, tbl_element_1_max}
use cfe_sntp.UnitTest.Cases.{sys_logs}

-- `SNTP_Process`, whose table is what CFE_TBL_GetAddress gives, `SNTP_TblValidationFunc` and
-- `SNTP_GetCrc`. The command message is not looked at by the tests.
pub record Declared : Type 0 where
  pub process : Platform → Table → M SntpData ℤ
  pub tbl_validation_func : Platform → Table → M SntpData ℤ
  pub get_crc : Platform → String → M SntpData (Unit {0})

abbrev pub table_addresses : List Call → ℕ
table_addresses [] = 0
table_addresses (Call.get_table_address ∷ h) = suc (table_addresses h)
table_addresses (_ ∷ h) = table_addresses h

abbrev pub library_calls : List Call → ℕ
library_calls [] = 0
library_calls (Call.sample_lib_function ∷ h) = suc (library_calls h)
library_calls (_ ∷ h) = library_calls h

abbrev fresh : World SntpData → World SntpData
fresh w = record w { calls = [] }

module _ (d : Declared) where
  -- `Test_SNTP_ProcessCC`, on a platform where the table has an address and on one where it has
  -- none, with the code for that.
  unfoldable pub test_process_cc : Platform → Platform → ℤ → World SntpData → List Bool
  test_process_cc nominal failing unregistered w =
      let data_of_test : Table = record { int1 = 40; int2 = 50 } in
      let first = d.process nominal data_of_test (fresh w) in
      let second = d.process failing data_of_test first.1 in
      (first.0 ==ℤ nominal.cfe.success)
      ∷ (table_addresses first.1.calls == 1)
      ∷ (library_calls first.1.calls == 1)
      ∷ (second.0 ==ℤ unregistered)
      ∷ []

  -- `Test_SNTP_TblValidationFunc`
  unfoldable pub test_tbl_validation_func : Platform → World SntpData → List Bool
  test_tbl_validation_func p w =
      let first = d.tbl_validation_func p (record { int1 = 0; int2 = 0 }) (fresh w) in
      let second =
        d.tbl_validation_func p (record { int1 = 1 + tbl_element_1_max; int2 = 0 }) first.1 in
      (first.0 ==ℤ p.cfe.success) ∷ (second.0 ==ℤ table_out_of_range_err_code) ∷ []

  -- `Test_SNTP_GetCrc`, on a platform that does not know the table and on one that does.
  unfoldable pub test_get_crc : Platform → Platform → World SntpData → List Bool
  test_get_crc failing nominal w =
      let first = d.get_crc failing "UT" (fresh w) in
      let second = d.get_crc nominal "UT" first.1 in
      (sys_logs first.1.calls == 1) ∷ (sys_logs second.1.calls == 2) ∷ []
