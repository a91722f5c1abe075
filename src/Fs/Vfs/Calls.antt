-- ===== src/Fs/Vfs/Calls.antt =====
-- Reads, writes, seeks, ioctls and directory reads through a file descriptor.
use aexkernel.Prelude.{ℕ, ◌≡◌, some, [], if◌then◌else◌}
use aexkernel.Rc.Array.{Cell, slot, rcparray_get}
use aexkernel.Rc.Array.Laws.{
  IsLive, IsGone, get_live_value, get_gone_value, get_gone_array, unref-get,
}
use aexkernel.Fs.Types.{Handle, FileDescriptor, Call, Driver, Vfs, ok, fault}
use aexkernel.Fs.Vfs.{bad_fd, driver, handle_call, has_op, fd_call}

module _ {W : Type 0} (drivers : ℕ → Driver W) where
  -- A descriptor and the handle behind it, both present, with counts that can go up.
  pub record IsOpen (v : Vfs W) (fd : ℕ) (d : Cell FileDescriptor) (h : Cell Handle) : Type 0 where
    pub fd_slot : slot v.fds fd ≡ some d
    pub fd_live : IsLive d
    pub handle_slot : slot v.handles d.value.ifd ≡ some h
    pub handle_live : IsLive h

  handle_call_lem :
      (c : Call) (v : Vfs W) (i : ℕ) (h : Cell Handle)
      → slot v.handles i ≡ some h
      → IsLive h
      → let (reply, w) = (driver drivers h.value).request h.value.mount h.value.ifd c v.world in
        handle_call drivers c i v ≡ (reply, record v { world = w })
  unfolding handle_call
  handle_call_lem c v i h e l =
      rw (get_live_value v.handles i h e l, unref-get v.handles i h e l, handle_call)

  -- A call on an open descriptor hands the request to the driver of its mount, once, with the mount
  -- and the file of its handle; it returns the driver's reply, and neither table is changed. A
  -- descriptor without the function for the call, as `fs_opendir` makes for `write`, faults.
  pub fd_call_lem :
      (c : Call) (v : Vfs W) (fd : ℕ) (d : Cell FileDescriptor) (h : Cell Handle)
      → IsOpen v fd d h
      → let (reply, w) = (driver drivers h.value).request h.value.mount h.value.ifd c v.world in
        fd_call drivers c fd v
        ≡ (if has_op drivers d.value.ops c then ok (reply, record v { world = w }) else fault)
  unfolding fd_call
  fd_call_lem c v fd d h o = rw (
    get_live_value v.fds fd d o.fd_slot o.fd_live,
    handle_call_lem c (record v { fds = (rcparray_get v.fds fd).0 }) d.value.ifd h o.handle_slot
        o.handle_live,
    unref-get v.fds fd d o.fd_slot o.fd_live,
    fd_call,
  )

  -- A call on a descriptor that is not there, or closed, is refused and changes nothing.
  pub fd_call_gone :
      (c : Call) (v : Vfs W) (fd : ℕ)
      → IsGone (slot v.fds fd)
      → fd_call drivers c fd v ≡ ok (record { ret = bad_fd c; bytes = [] }, v)
  unfolding fd_call
  fd_call_gone c v fd g = rw (get_gone_value v.fds fd g, get_gone_array v.fds fd g, fd_call)
