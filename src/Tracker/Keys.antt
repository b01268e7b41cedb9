-- ===== src/Tracker/Keys.antt =====
-- The keys of `map_registry`: as the eBPF programs build them from a VM's name, a loop that
-- create_maps.bpf.c and timer.bpf.c hold three times.
use phantom_tracker.Common.{ℕ, zero, suc, ◌+◌, ◌-◌, if◌then◌else◌, ◌==◌, get_or, set, replicate}
use phantom_tracker.Tracker.State.{vm_name_len, Name}

abbrev pub underscore : ℕ
underscore = b'_'

abbrev pub digit_1 : ℕ
digit_1 = b'1'

abbrev pub digit_2 : ℕ
digit_2 = b'2'

-- `for (i = 0; i < VM_NAME_LEN - 3; i++)` with the rounds left; the result is the buffer and `i`.
unfoldable pub copy_name : ℕ → ℕ → Name → Name → Name × ℕ
copy_name zero i name buff = (buff, i)
copy_name (suc rounds) i name buff =
    let c = get_or name i 0 in
    let rest = copy_name rounds (i + 1) name (set buff i c) in
    if c == 0 then (set buff i c, i) else rest

unfoldable pub append_suffix : ℕ → Name × ℕ → Name
append_suffix digit (buff, i) = set (set (set buff i underscore) (i + 1) digit) (i + 2) 0

-- `char collection_buff[VM_NAME_LEN] = {}`, the copy, and "_1" or "_2".
unfoldable pub collection_key : ℕ → Name → Name
unfolding copy_name append_suffix
collection_key digit name =
    append_suffix digit (copy_name (vm_name_len - 3) 0 name (replicate vm_name_len 0))
