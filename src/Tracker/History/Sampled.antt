-- ===== src/Tracker/History/Sampled.antt =====
-- create_maps.bpf.c and timer.bpf.c: a VM that the maps hold with its samples, and writes elsewhere.
use phantom_tracker.Common.{ℕ, ◌≤◌, ◌≢◌, modify}
use phantom_tracker.Tracker.State.{Name, Name-discrete, Vm, Buffer, Tracker}
use phantom_tracker.Tracker.Keys.{digit_1, digit_2, collection_key}
use phantom_tracker.Tracker.History.Located.{Located, other-Located, elsewhere-Located}
use phantom_tracker.Tracker.History.Collects.{Collects, later-Collects}

-- The maps hold the VM and its two buffers, and the active one holds its samples.
pub record Sampled (name : Name) (nb : ℕ) (t : Tracker) (now n : ℕ) : Type 0 where
  pub vm : Vm
  pub buff_1 : Buffer
  pub buff_2 : Buffer
  pub located : Located name t.vms t.map_registry vm buff_1 buff_2
  pub collects : Collects nb vm buff_1 buff_2 now n

module _ (name : Name) (nb : ℕ) where
  pub later-Sampled :
      (t : Tracker) (now n now' n' : ℕ)
      → now ≤ now'
      → n ≤ n'
      → Sampled name nb t now n
      → Sampled name nb t now' n'
  later-Sampled t now n now' n' h g s = record {
    vm = s.vm;
    buff_1 = s.buff_1;
    buff_2 = s.buff_2;
    located = s.located;
    collects = later-Collects nb s.vm s.buff_1 s.buff_2 now n s.collects now' n' h g;
  }

  -- A write to another VM and its buffers.
  pub elsewhere-Sampled :
      (t : Tracker) (now n : ℕ) (other : Name) (f : Vm → Vm) (key : Name) (g : Buffer → Buffer)
      → other ≢ name
      → key ≢ collection_key digit_1 name
      → key ≢ collection_key digit_2 name
      → Sampled name nb t now n
      → Sampled name nb
          (record t {
            vms = modify Name-discrete other f t.vms;
            map_registry = modify Name-discrete key g t.map_registry;
          })
          now
          n
  elsewhere-Sampled t now n other f key g ne not_1 not_2 s = record {
    vm = s.vm;
    buff_1 = s.buff_1;
    buff_2 = s.buff_2;
    located =
        other-Located name t.vms _ s.vm s.buff_1 s.buff_2
          (elsewhere-Located name t.vms t.map_registry s.vm s.buff_1 s.buff_2 s.located key g not_1
            not_2)
          other f ne;
    collects = s.collects;
  }

  -- A write to another VM.
  pub counter-Sampled :
      (t : Tracker) (now n : ℕ) (other : Name) (f : Vm → Vm)
      → other ≢ name
      → Sampled name nb t now n
      → Sampled name nb (record t { vms = modify Name-discrete other f t.vms }) now n
  counter-Sampled t now n other f ne s = record {
    vm = s.vm;
    buff_1 = s.buff_1;
    buff_2 = s.buff_2;
    located = other-Located name t.vms t.map_registry s.vm s.buff_1 s.buff_2 s.located other f ne;
    collects = s.collects;
  }
