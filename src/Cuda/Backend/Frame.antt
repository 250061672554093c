-- ===== src/Cuda/Backend/Frame.antt =====
-- The refused operations of crates/gpumesh-core/src/cuda_backend.rs.
use gpu_share.Cuda.Backend.Runs.{
  op_launch-same, op_load_ptx-same, op_event_elapsed-same, op_device_props-same,
}
use gpu_share.Cuda.Backend.Exec.{
  op_event_record, op_event_destroy, op_event_create, op_mem_get_info, op_set_device, exec,
}
use gpu_share.Protocol.{
  event_create, get_device, mem_get_info, sync, device_count, vector_add_f32, launch_kernel,
  load_module_ptx, event_elapsed, event_record, event_destroy, set_device, memset, memcpy_dtod,
  memcpy_dtoh, memcpy_htod, free, malloc, device_props, CudaOpKind, CudaPartial,
}
use gpu_share.Cuda.Backend.Kernels.{sum_lanes, check_lens, with_buf, op_vector_add}
use gpu_share.Base.{
  leb, unwrap_or, replicate, ltb, show_hex, ℕ, String, Bool, true, false, Option, none, some, List,
  [], ◌∷◌, inl, inr, ◌≡◌, refl, if◌then◌else◌, nat_eq, string_eq, ◌-◌, ◌*◌, ◌&◌, ◌⊎◌, length,
}
use gpu_share.Base.Map
use gpu_share.Base.Map.{Map}
use gpu_share.Cuda.Backend.{
  op_dtoh, Answer, check_alloc, op_free, op_malloc, op_dtod, overwrite, write_buf, max_memcpy,
  read_buf, F32, no_partial, done, refused, op_memset, written, Reply, op_htod, BackendSession,
}

-- A refusal comes with the session as it was.
abbrev RefusesCleanly : BackendSession → Reply → Type 0
RefusesCleanly s r = (e : String) → r.0 ≡ refused e → r.1 ≡ s

done-ne-refused : {A : Type 0} (p : CudaPartial) (e : String) → done p ≡ refused e → A
done-ne-refused p e h = cc

written-clean : (s : BackendSession) (r : BackendSession ⊎ String) → RefusesCleanly s (written s r)
written-clean s (inl t) e h = done-ne-refused no_partial e h
written-clean s (inr e') e h = refl

with_buf-clean :
    (s : BackendSession) (p : ℕ) (f : List ℕ → Reply)
    → ((b : List ℕ) → RefusesCleanly s (f b))
    → RefusesCleanly s (with_buf s p f)
with_buf-clean s p f h = go (Map.get p s.host_buffers)
  where
    go :
        (o : Option (List ℕ))
        → RefusesCleanly s (elim o as (λ _. Reply) [
          | none ↦ (refused ("invalid ptr " & show_hex p), s)
          | some buf ↦ f buf
        ])
    go none e r = refl
    go (some b) e r = h b e r

-- An optional refusal, else the reply of the rest.
unless-clean :
    (s : BackendSession) (o : Option String) (r : Reply)
    → RefusesCleanly s r
    → RefusesCleanly s (elim o as (λ _. Reply) [ some e ↦ (refused e, s) | none ↦ r ])
unless-clean s none r h e k = h e k
unless-clean s (some e') r h e k = refl

-- A test that refuses, else the reply of the rest.
guard-clean :
    (s : BackendSession) (b : Bool) (e' : String) (r : Reply)
    → RefusesCleanly s r
    → RefusesCleanly s (if b then (refused e', s) else r)
guard-clean s true e' r h e k = refl
guard-clean s false e' r h e k = h e k

op_htod-clean :
    (s : BackendSession) (dst : ℕ) (bytes : List ℕ) → RefusesCleanly s (op_htod s dst bytes)
unfolding op_htod read_buf
op_htod-clean s dst bytes = guard-clean s (ltb max_memcpy (length bytes)) "memcpy too large" _ (
    with_buf-clean s dst _ λ full.
      guard-clean s (ltb (length full) (length bytes)) "HtoD overflows buffer" _
        (written-clean s (write_buf s dst (overwrite bytes full))))

op_memset-clean :
    (s : BackendSession) (ptr value n : ℕ) → RefusesCleanly s (op_memset s ptr value n)
unfolding op_memset read_buf
op_memset-clean s ptr value n = with_buf-clean s ptr _ λ full.
    guard-clean s (ltb (length full) n) "memset overflows buffer" _
      (written-clean s (write_buf s ptr (overwrite (replicate n value) full)))

op_vector_add-clean :
    (fl : F32) (s : BackendSession) (a b out n : ℕ)
    → RefusesCleanly s (op_vector_add fl s a b out n)
unfolding op_vector_add
op_vector_add-clean fl s a b out n = unless-clean s (check_lens s (n * 4) (a ∷ b ∷ out ∷ [])) _ (
    with_buf-clean s a _ λ ab. with_buf-clean s b _ λ bb.
      with_buf-clean s out _ λ ob. written-clean s (write_buf s out (sum_lanes fl n ab bb ob)))

done-clean : (s t : BackendSession) (p : CudaPartial) → RefusesCleanly s (done p, t)
done-clean s t p e h = done-ne-refused p e h

-- A test that accepts, else a refusal.
test-clean :
    (s t : BackendSession) (b : Bool) (p : CudaPartial) (e' : String)
    → RefusesCleanly s (if b then (done p, t) else (refused e', s))
test-clean s t true p e' e h = done-ne-refused p e h
test-clean s t false p e' e h = refl

op_free-clean : (s : BackendSession) (ptr : ℕ) → RefusesCleanly s (op_free s ptr)
unfolding op_free
op_free-clean s ptr = go (Map.get ptr s.host_buffers)
  where
    go :
        (o : Option (List ℕ))
        → RefusesCleanly s (elim o as (λ _. Reply) [
          | some buf ↦ (
            done no_partial,
            record s { host_buffers = Map.remove ptr s.host_buffers; used = s.used - length buf },
          )
          | none ↦ (refused ("invalid device ptr " & show_hex ptr), s)
        ])
    go none e h = refl
    go (some b) e h = done-ne-refused no_partial e h

op_malloc-clean : (s : BackendSession) (n : ℕ) → RefusesCleanly s (op_malloc s n)
unfolding op_malloc
op_malloc-clean s n = unless-clean s (check_alloc s n) _ (done-clean s _ _)

op_dtod-clean : (s : BackendSession) (dst src n : ℕ) → RefusesCleanly s (op_dtod s dst src n)
unfolding op_dtod
op_dtod-clean s dst src n = go (op_dtoh s src n)
  where
    go :
        (a : Answer)
        → RefusesCleanly s (elim a as (λ _. Reply) [
          | refused e ↦ (refused e, s)
          | done p ↦ op_htod s dst (unwrap_or p.bytes [])
        ])
    go (refused e') e h = refl
    go (done p) e h = op_htod-clean s dst (unwrap_or p.bytes []) e h

-- An operation of any kind that is refused leaves the session as it was.
pub exec_refused :
    (fl : F32) (now : ℕ) (op : CudaOpKind) (s : BackendSession) (e : String)
    → (exec fl now op s).0 ≡ refused e
    → (exec fl now op s).1 ≡ s
unfolding exec op_set_device op_mem_get_info op_event_create op_event_destroy op_event_record
exec_refused fl now device_count s e h = refl
exec_refused fl now (device_props d) s e h = op_device_props-same s d
exec_refused fl now (malloc bytes) s e h = op_malloc-clean s bytes e h
exec_refused fl now (free ptr) s e h = op_free-clean s ptr e h
exec_refused fl now (memcpy_htod dst bytes) s e h = op_htod-clean s dst bytes e h
exec_refused fl now (memcpy_dtoh src bytes) s e h = refl
exec_refused fl now (memcpy_dtod dst src bytes) s e h = op_dtod-clean s dst src bytes e h
exec_refused fl now (memset ptr value bytes) s e h = op_memset-clean s ptr value bytes e h
exec_refused fl now sync s e h = refl
exec_refused fl now mem_get_info s e h = refl
exec_refused fl now (set_device d) s e h =
    guard-clean s (leb (length s.devices) d) _ _ (done-clean s _ _) e h
exec_refused fl now get_device s e h = refl
exec_refused fl now event_create s e h = done-ne-refused _ e h
exec_refused fl now (event_destroy v) s e h =
    test-clean s _ (Map.contains_key v s.events) no_partial _ e h
exec_refused fl now (event_record v) s e h =
    test-clean s _ (Map.contains_key v s.events) no_partial _ e h
exec_refused fl now (event_elapsed a b) s e h = op_event_elapsed-same s a b
exec_refused fl now (load_module_ptx ptx) s e h = op_load_ptx-same s ptx
exec_refused fl now (launch_kernel m f g b sh args) s e h = op_launch-same s m f g b sh args
exec_refused fl now (vector_add_f32 a b out n) s e h = op_vector_add-clean fl s a b out n e h
