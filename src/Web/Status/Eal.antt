-- ===== src/Web/Status/Eal.antt =====
-- src/web_status.c: `render_eal_json`, the values that it reports. Those that DPDK gives are
-- arguments: the pool, if there is one, and the statistics of the heap, if they can be had. The
-- id of the socket, which is printed as it is, is left out.
use chrontabulator.Base.{ℕ, Bool, true, false, Option, none, some}

pub record Pool : Type 0 where
  pub size : ℕ
  pub available : ℕ
  pub in_use : ℕ

-- `struct rte_malloc_socket_stats`
pub record HeapStats : Type 0 where
  pub heap_totalsz_bytes : ℕ
  pub heap_freesz_bytes : ℕ
  pub heap_allocsz_bytes : ℕ
  pub greatest_free_size : ℕ
  pub alloc_count : ℕ
  pub free_count : ℕ

pub record Eal : Type 0 where
  pub lcore_count : ℕ
  pub physmem_size_bytes : ℕ
  pub have_pool : Bool
  pub mbuf_pool : Pool
  pub have_stats : Bool
  pub malloc_heap : HeapStats

-- `ctx->mbuf_pool ? … : 0`
unfoldable pub pool_or_zero : Option Pool → Bool × Pool
pool_or_zero none = (false, record { size = 0; available = 0; in_use = 0 })
pool_or_zero (some p) = (true, p)

-- `memset(&heap_stats, 0, …)` if they cannot be had.
unfoldable pub stats_or_zero : Option HeapStats → Bool × HeapStats
stats_or_zero none = (
  false,
  record {
    heap_totalsz_bytes = 0;
    heap_freesz_bytes = 0;
    heap_allocsz_bytes = 0;
    greatest_free_size = 0;
    alloc_count = 0;
    free_count = 0;
  },
)
stats_or_zero (some h) = (true, h)

unfoldable pub render_eal_json : ℕ → ℕ → Option Pool → Option HeapStats → Eal
render_eal_json lcores physmem pool stats =
    let (have_pool, p) = pool_or_zero pool in
    let (have_stats, h) = stats_or_zero stats in
    record {
      lcore_count = lcores;
      physmem_size_bytes = physmem;
      have_pool = have_pool;
      mbuf_pool = p;
      have_stats = have_stats;
      malloc_heap = h;
    }
