-- ===== src/Sys/Pipe.antt =====
-- The pipe in `sys_write` and `sys_read` of src/syscall.c. Where the call halts the processor until an
-- interrupt comes, the model stops with `waits`; the call goes on with what is left once another
-- task has changed the pipe.
use lite_bsd.Prelude.{
  ℕ, zero, suc, ◌+◌, ◌-◌, ◌%◌, false, ◌&&◌, not, List, [], ◌∷◌, ltb, leb, ◌==◌, if◌then◌else◌,
  get_or, set, length,
}
use lite_bsd.Sched.File.{Pipe}

-- The number of bytes moved, -35 (EAGAIN), or the number moved so far where the call waits.
pub data Moved : Type 0 where
  moved : ℕ → Moved
  again : Moved
  waits : ℕ → Moved

unfoldable pub put_byte : ℕ → Pipe → Pipe
put_byte b p = record p {
  buffer = set p.buffer p.write_pos b;
  write_pos = (p.write_pos + 1) % p.size;
  count = suc p.count;
}

unfoldable pub drop_byte : Pipe → Pipe
drop_byte p = record p { read_pos = (p.read_pos + 1) % p.size; count = p.count - 1 }

-- The loop of `sys_write` as far as it goes without a pause: the pipe and the bytes written.
unfoldable pub write_loop : List ℕ → Pipe → Pipe × ℕ
write_loop [] p = (p, 0)
write_loop (b ∷ bs) p =
    let (p', n) = write_loop bs (put_byte b p) in if leb p.size p.count then (p, 0) else (p', suc n)

unfoldable pub pipe_write : List ℕ → Pipe → Pipe × Moved
pipe_write bytes p =
    let (p', n) = write_loop bytes p in
    if ltb n (length bytes) && not p.nonblocking
    then (p', waits n)
    else if (n == 0) && ltb 0 (length bytes)
    then (p', again)
    else (p', moved n)

-- The loop of `sys_read`: the pipe and the bytes read.
unfoldable pub read_loop : ℕ → Pipe → Pipe × List ℕ
read_loop zero p = (p, [])
read_loop (suc k) p =
    let (p', bytes) = read_loop k (drop_byte p) in
    if p.count == 0 then (p, []) else (p', get_or p.buffer p.read_pos 0 ∷ bytes)

-- `sys_read` of `count` bytes; `count` is not 0. A pipe without writers reads as ended.
unfoldable pub pipe_read : ℕ → Pipe → Pipe × List ℕ × Moved
pipe_read count p =
    let (p', bytes) = read_loop count p in
    if ltb (length bytes) count && ltb 0 p.write_ref && not p.nonblocking
    then (p', bytes, waits (length bytes))
    else if (length bytes == 0) && ltb 0 p.write_ref
    then (p', bytes, again)
    else (p', bytes, moved (length bytes))

-- The pipe that `sys_pipe` makes.
abbrev pub new_pipe : List ℕ → Pipe
new_pipe buffer = record {
  buffer = buffer;
  size = 4096;
  read_pos = 0;
  write_pos = 0;
  count = 0;
  read_ref = 1;
  write_ref = 1;
  nonblocking = false;
}
