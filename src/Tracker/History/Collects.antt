-- ===== src/Tracker/History/Collects.antt =====
-- create_maps.bpf.c and timer.bpf.c: what a VM and its two buffers hold between two swaps.
use phantom_tracker.Common.{
  ℕ, ◌+◌, ◌^◌, ◌≤◌, ◌<◌, ◌≡◌, arith, List, ℤ, ◌==◌, true, false, Bool-cases, inl, inr, u32,
}
use phantom_tracker.Tracker.State.{Vm, Sample, Buffer, update_elem}
use phantom_tracker.Tracker.Register.{new_vm, new_buffer}
use phantom_tracker.Tracker.Counter.Laws.{InRange}
use phantom_tracker.Tracker.Timer.{Readings, sample_of, swap_to_1, swap_to_2, swap_buffers}
use phantom_tracker.Tracker.Timer.Collected.{Collected, append-Collected, open-Collected}
use phantom_tracker.Tracker.Timer.Swap.{active, active_index}

-- The active buffer holds samples in order of time, none later than `now`, with counts from zero to
-- the VM's number of vCPUs, and is written next at `n` at most, which may lie past its end.
pub record Collects (nb : ℕ) (vm : Vm) (buff_1 buff_2 : Buffer) (now n : ℕ) : Type 0 where
  pub room_1 : (0 < buff_1.max_entries) × (buff_1.max_entries < 2 ^ 32)
  pub room_2 : (0 < buff_2.max_entries) × (buff_2.max_entries < 2 ^ 32)
  pub nb_vcpus : vm.nb_vcpus ≡ nb
  pub flag : vm.is_collectx_in_buff_1 ≤ 1
  pub counted : InRange nb vm.phantom_count
  pub index : active_index vm ≤ n
  pub collected : Collected (active vm buff_1 buff_2) (active_index vm) now nb

module _ (nb : ℕ) (vm : Vm) (buff_1 buff_2 : Buffer) (now n : ℕ) (word : ℤ) (s : Sample)
    (c : Collects nb vm buff_1 buff_2 now n) (fits : n + 1 < 2 ^ 32) (later : now ≤ s.timestamp)
    (counted : InRange nb word) (sampled : InRange nb s.count) where
  -- A sample recorded in the first buffer, behind a counter that other CPUs may have moved.
  pub one-Collects :
      (vm.is_collectx_in_buff_1 == 1) ≡ true
      → Collects nb
          (record vm {
            phantom_count = word;
            collection_buff_1_index = u32 (vm.collection_buff_1_index + 1);
          })
          (update_elem buff_1 vm.collection_buff_1_index s)
          buff_2
          s.timestamp
          (n + 1)
  one-Collects e =
      let held : Collected buff_1 vm.collection_buff_1_index now nb = rw e at c.collected in
      let low : vm.collection_buff_1_index ≤ n = rw e at c.index in
      let step : u32 (vm.collection_buff_1_index + 1) ≡ vm.collection_buff_1_index + 1 =
        ground arith in
      record {
        room_1 = ground (arith, c.room_1);
        room_2 = c.room_2;
        nb_vcpus = c.nb_vcpus;
        flag = c.flag;
        counted = counted;
        index = rw (e, step) (omega arith);
        collected =
            rw (e, step)
              (append-Collected buff_1 vm.collection_buff_1_index now nb s held later sampled);
      }

  -- The same in the second buffer.
  pub two-Collects :
      (vm.is_collectx_in_buff_1 == 1) ≡ false
      → Collects nb
          (record vm {
            phantom_count = word;
            collection_buff_2_index = u32 (vm.collection_buff_2_index + 1);
          })
          buff_1
          (update_elem buff_2 vm.collection_buff_2_index s)
          s.timestamp
          (n + 1)
  two-Collects e =
      let held : Collected buff_2 vm.collection_buff_2_index now nb = rw e at c.collected in
      let low : vm.collection_buff_2_index ≤ n = rw e at c.index in
      let step : u32 (vm.collection_buff_2_index + 1) ≡ vm.collection_buff_2_index + 1 =
        ground arith in
      record {
        room_1 = c.room_1;
        room_2 = ground (arith, c.room_2);
        nb_vcpus = c.nb_vcpus;
        flag = c.flag;
        counted = counted;
        index = rw (e, step) (omega arith);
        collected =
            rw (e, step)
              (append-Collected buff_2 vm.collection_buff_2_index now nb s held later sampled);
      }

module _ (nb : ℕ) (vm : Vm) (buff_1 buff_2 : Buffer) (now n : ℕ)
    (c : Collects nb vm buff_1 buff_2 now n) where
  -- Later, with a greater bound on the index.
  pub later-Collects : (now' n' : ℕ) → now ≤ now' → n ≤ n' → Collects nb vm buff_1 buff_2 now' n'
  later-Collects now' n' h g = record {
    room_1 = c.room_1;
    room_2 = c.room_2;
    nb_vcpus = c.nb_vcpus;
    flag = c.flag;
    counted = c.counted;
    index = omega (arith, c.index);
    collected = record {
      some_room = c.collected.some_room;
      indexed = c.collected.indexed;
      ascending = c.collected.ascending;
      past = λ k l r. omega (arith, c.collected.past k l r);
      ranged = c.collected.ranged;
    };
  }

  -- A swap opens the other buffer.
  pub swap-Collects :
      (k : Readings)
      → let s = swap_buffers k vm buff_1 buff_2 in Collects nb s.vm s.buff_1 s.buff_2 k.start_time 1
  unfolding swap_buffers swap_to_1 swap_to_2
  swap-Collects k = elim (Bool-cases (vm.is_collectx_in_buff_1 == 1)) [
    | inl e ↦ rw e record {
      room_1 = ground (arith, c.room_1);
      room_2 = ground (arith, c.room_2);
      nb_vcpus = c.nb_vcpus;
      flag = omega arith;
      counted = c.counted;
      index = omega arith;
      collected =
          open-Collected buff_2 nb (sample_of vm k.start_time) c.room_2.0 c.room_2.1 c.counted;
    }
    | inr e ↦
        (let zero_too : (vm.is_collectx_in_buff_1 == 0) ≡ true = ground (arith, c.flag) in
          rw (e, zero_too)
            record {
              room_1 = ground (arith, c.room_1);
              room_2 = ground (arith, c.room_2);
              nb_vcpus = c.nb_vcpus;
              flag = omega arith;
              counted = c.counted;
              index = omega arith;
              collected =
                  open-Collected buff_1 nb (sample_of vm k.start_time) c.room_1.0 c.room_1.1
                    c.counted;
            })
  ]

-- A VM as the tool registers it, with the buffers that it creates.
pub new-Collects :
    (qmp_socket : List ℕ) (nb : ℕ)
    → nb < 2 ^ 32
    → Collects nb (new_vm qmp_socket nb) new_buffer new_buffer 0 0
new-Collects qmp_socket nb h = record {
  room_1 = (omega arith, omega arith);
  room_2 = (omega arith, omega arith);
  nb_vcpus = omega arith;
  flag = omega arith;
  counted = ground arith;
  index = omega arith;
  collected = record {
    some_room = omega arith;
    indexed = omega arith;
    ascending = λ k l r. omega arith;
    past = λ k l r. omega arith;
    ranged = λ k l r. absurd (omega arith);
  };
}
