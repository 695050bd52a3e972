-- ===== src/Sched/Task/Slots.antt =====
-- Slots and stacks: finding, clearing and naming slots, and the pool of stacks. The bytes of a stack
-- are not modelled; a stack is its addresses and its bit in the pool.
use octans.Prelude.{
  ℕ, ◌+◌, ◌-◌, ◌*◌, ◌%◌, ◌^◌, ℤ, pos, negsuc, Option, none, some, Bool, true, false, ◌&&◌, ◌||◌,
  not, ltb, leb, ◌==◌, if◌then◌else◌, List, [], ◌∷◌, get_or, find_from, take, add32, bits_test,
  bits_set, bits_clear,
}
use octans.Sched.Task.State.{
  Task, Sched, StackCtx, max_tasks, stack_slots, no_bits, task_at, put_task, zero_task,
}
use octans.Sched.Task.Queue.{put_waitq}

-- VM_CALL_STACK_ENTRIES, VM_DATA_STACK_ENTRIES and VM_ISR_STACK_ENTRIES.
abbrev pub stack_entries : ℕ
stack_entries = 2048

-- VM_CALL_STACK_BYTES and VM_DATA_STACK_BYTES.
abbrev pub call_stack_bytes : ℕ
call_stack_bytes = stack_entries * 8

abbrev pub data_stack_bytes : ℕ
data_stack_bytes = stack_entries * 4

-- KERNEL_IRQ_STACK_BYTES, and VM_STACK_SLOT_BYTES: the machine's three stacks and the C stack.
abbrev pub irq_stack_bytes : ℕ
irq_stack_bytes = 2 ^ 15

abbrev pub stack_slot_bytes : ℕ
stack_slot_bytes = call_stack_bytes + data_stack_bytes + stack_entries * 8 + irq_stack_bytes

-- VM_STACK_POOL_BASE, the pool being at the end of the memory.
abbrev pub stack_pool_base : ℕ
stack_pool_base = 0x0400_0000 - stack_slot_bytes * stack_slots

unfoldable pub sched_stack_pool_slot_base : ℕ → ℕ
sched_stack_pool_slot_base slot = add32 stack_pool_base (stack_slot_bytes * slot % 2 ^ 32)

-- The context of a fresh stack in the pool's slot `slot`.
abbrev pub fresh_stack : ℕ → StackCtx
fresh_stack slot =
    let base = sched_stack_pool_slot_base slot in
    record {
      call_base = base;
      data_base = add32 base call_stack_bytes;
      isr_base = add32 base (call_stack_bytes + data_stack_bytes);
      csp = stack_entries;
      dsp = stack_entries;
      isp = stack_entries;
      irq_masked = false;
      in_interrupt = false;
      pool_slot = slot;
      valid = true;
      sp30 = add32 base stack_slot_bytes;
      sp31 = add32 base stack_slot_bytes;
    }

-- The first free slot of the pool behind the reserved ones goes to the task `i`; the Bool tells
-- whether there was one.
unfoldable pub sched_stack_alloc_locked : ℕ → Sched → Sched × Bool
unfolding find_from bits_test bits_set
sched_stack_alloc_locked i s =
    elim (find_from (λ k. not (bits_test s.stack_bitmap k)) (stack_slots - s.stack_reserved)
      s.stack_reserved) [
        | none ↦ (s, false)
        | some k ↦ (
          put_task i (λ t. record t { stack_ctx = fresh_stack k })
              (record s { stack_bitmap = bits_set s.stack_bitmap k }),
          true,
        )
      ]

-- The stack pointers of a task that has not started, where it has a stack. The return address for
-- `sched_task_bootstrap` is written to the stack.
abbrev pub boot_ctx : StackCtx → StackCtx
boot_ctx c =
    if not c.valid
    then c
    else record c { csp = stack_entries - 1; dsp = stack_entries; isp = stack_entries }

unfoldable pub sched_stack_prepare_bootstrap_locked : ℕ → Sched → Sched
sched_stack_prepare_bootstrap_locked i s =
    put_task i (λ t. record t { stack_ctx = boot_ctx t.stack_ctx }) s

unfoldable pub sched_stack_free_locked : ℕ → Sched → Sched
unfolding bits_clear
sched_stack_free_locked i s =
    let c = (task_at s i).stack_ctx in
    if not c.valid
    then s
    else if leb stack_slots c.pool_slot
    then s
    else if ltb c.pool_slot s.stack_reserved
    then s
    else put_task i (λ t. record t { stack_ctx = record t.stack_ctx { valid = false } })
        (record s { stack_bitmap = bits_clear s.stack_bitmap c.pool_slot })

-- All bytes of the slot are set to 0, those of its `child_waitq` too.
unfoldable pub sched_clear_task : ℕ → Sched → Sched
sched_clear_task i s = put_task i (λ t. zero_task) (put_waitq i (λ b. no_bits) s)

unfoldable pub sched_alloc_slot : Sched → Option ℕ
unfolding find_from
sched_alloc_slot s = find_from (λ i. not (task_at s i).used) (max_tasks - 1) 1

unfoldable pub sched_find_by_tid : ℕ → Sched → Option ℕ
unfolding find_from
sched_find_by_tid tid s =
    if tid == 0
    then some 0
    else find_from (λ i. (task_at s i).used && (task_at s i).tid == tid) (max_tasks - 1) 1

-- (uint32_t)v and (int32_t)v.
abbrev pub to_u32 : ℤ → ℕ
to_u32 (pos n) = n % 2 ^ 32
to_u32 (negsuc n) = 2 ^ 32 - 1 - n % 2 ^ 32

abbrev pub to_i32 : ℕ → ℤ
to_i32 n = if ltb (n % 2 ^ 32) (2 ^ 31) then pos (n % 2 ^ 32) else negsuc (2 ^ 32 - 1 - n % 2 ^ 32)

-- a == b of two signed numbers.
abbrev pub int_eq : ℤ → ℤ → Bool
int_eq (pos a) (pos b) = a == b
int_eq (pos a) (negsuc b) = false
int_eq (negsuc a) (pos b) = false
int_eq (negsuc a) (negsuc b) = a == b

-- SCHED_WAITPID_ANY is -1.
unfoldable pub sched_task_is_child_of : Task → ℤ → ℤ → Bool
sched_task_is_child_of t parent_tid pid =
    if not t.used || t.is_idle
    then false
    else if not (int_eq t.parent_tid parent_tid)
    then false
    else if int_eq pid (negsuc 0)
    then true
    else t.tid == to_u32 pid

-- A path as the bytes before its 0; SCHED_CWD_CAP is 64.
unfoldable pub sched_cwd_copy : List ℕ → List ℕ
sched_cwd_copy src = if get_or src 0 0 == b'/' then take 63 src else b'/' ∷ []
