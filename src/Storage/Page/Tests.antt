-- ===== src/Storage/Page/Tests.antt =====
-- Parts of the list page.
use kama_asyn_log_system_clo.Base.{
  Bytes, codes, decimal_from, to_string, ℕ, ◌+◌, ◌-◌, ◌*◌, ◌^◌, ◌≡◌, refl, [], map, arith,
}
use kama_asyn_log_system_clo.Storage.Mysql.Sample.{three_files, sample_sort}
use kama_asyn_log_system_clo.Storage.Page.Size.{
  format_size, double_of, round_half_even, double_unit, unit_index, unit_name,
}
use kama_asyn_log_system_clo.Storage.Page.{generate_modern_file_list}
use kama_asyn_log_system_clo.Storage.Page.Marks.{marks, unnamed, generate_modern_file_list-marks}

-- Two digits behind the point, the even one of two that are as near.
sizes_shown :
    (format_size 0 ≡ codes "0.00 B")
    × (format_size 1023 ≡ codes "1023.00 B")
    × (format_size 1536 ≡ codes "1.50 KB")
    × (format_size 1048575 ≡ codes "1024.00 KB")
    × (format_size (5 * 1024 ^ 4) ≡ codes "5120.00 GB")
unfolding format_size to_string decimal_from round_half_even double_of double_unit unit_index
    unit_name
sizes_shown = (refl, refl, refl, refl, refl)

-- A `double` has 53 bits.
large_sizes : (double_of (2 ^ 53 + 1) ≡ 2 ^ 53) × (double_of (2 ^ 64 - 1) ≡ 2 ^ 64)
unfolding double_of round_half_even double_unit
large_sizes = (refl, refl)

no_time : ℕ → Bytes
no_time t = codes "now\n"

hostile_keyword : Bytes
hostile_keyword = codes "'><script>"

generate_modern_file_list-marks_example :
    marks (
      generate_modern_file_list no_time
        (codes "/download/")
        three_files
        3
        1
        10
        hostile_keyword
        sample_sort)
    ≡ marks (
        generate_modern_file_list no_time
          (codes "/download/")
          (map unnamed three_files)
          3
          1
          10
          []
          sample_sort)
unfolding hostile_keyword
generate_modern_file_list-marks_example =
    generate_modern_file_list-marks no_time (codes "/download/") three_files 3 1 10 hostile_keyword
      sample_sort (ground arith)
