-- ===== src/Fs/Vfs/Close.antt =====
-- Closing a file descriptor.
use aexkernel.Prelude.{ℕ, ◌≡◌, sym, some, [], subst}
use aexkernel.Rc.Array.{Cell, slot, rcparray_remove}
use aexkernel.Rc.Array.Laws.{
  IsLive, IsGone, get_live_value, get_gone_value, get_gone_array, unref-get, remove-IsGone,
}
use aexkernel.Fs.Types.{Handle, FileDescriptor, Call, Driver, Vfs, ok, ebadf}
use aexkernel.Fs.Vfs.{bad_fd, driver, handle_close, fd_close, fd_call}
use aexkernel.Fs.Vfs.Calls.{IsOpen, fd_call_gone}

module _ {W : Type 0} (drivers : ℕ → Driver W) where
  handle_close_lem :
      (v : Vfs W) (i : ℕ) (h : Cell Handle)
      → slot v.handles i ≡ some h
      → IsLive h
      → let (ret, w) = (driver drivers h.value).close_file h.value.mount h.value.ifd v.world in
        handle_close drivers i v
        ≡ (ret, record v { handles = (rcparray_remove v.handles i).0; world = w })
  unfolding handle_close
  handle_close_lem v i h e l =
      rw (get_live_value v.handles i h e l, unref-get v.handles i h e l, handle_close)

  -- Closing an open descriptor takes its value and its handle's out of their tables, asks the driver
  -- of its mount once to close the handle's file, and returns the driver's result.
  pub fd_close_lem :
      (v : Vfs W) (fd : ℕ) (d : Cell FileDescriptor) (h : Cell Handle)
      → IsOpen drivers v fd d h
      → let (ret, w) = (driver drivers h.value).close_file h.value.mount h.value.ifd v.world in
        fd_close drivers fd v ≡ (
          ret,
          record v {
            fds = (rcparray_remove v.fds fd).0;
            handles = (rcparray_remove v.handles d.value.ifd).0;
            world = w;
          },
        )
  unfolding fd_close
  fd_close_lem v fd d h o = rw (
    get_live_value v.fds fd d o.fd_slot o.fd_live,
    unref-get v.fds fd d o.fd_slot o.fd_live,
    handle_close_lem (record v { fds = (rcparray_remove v.fds fd).0 }) d.value.ifd h o.handle_slot
        o.handle_live,
    fd_close,
  )

  fd_close_gone : (v : Vfs W) (fd : ℕ) → IsGone (slot v.fds fd) → fd_close drivers fd v ≡ (ebadf, v)
  unfolding fd_close
  fd_close_gone v fd g = rw (get_gone_value v.fds fd g, get_gone_array v.fds fd g, fd_close)

  -- Once an open descriptor is closed, whoever else still holds a reference to it, a second close and
  -- every call on it are refused with -EBADF, and change nothing: the driver is not asked again.
  pub fd_close_once :
      (v : Vfs W) (fd : ℕ) (d : Cell FileDescriptor) (h : Cell Handle) (c : Call)
      → IsOpen drivers v fd d h
      → let v' = (fd_close drivers fd v).1 in
        (fd_close drivers fd v' ≡ (ebadf, v'))
        × (fd_call drivers c fd v' ≡ ok (record { ret = bad_fd c; bytes = [] }, v'))
  fd_close_once v fd d h c o = (
    fd_close_gone (fd_close drivers fd v).1 fd gone,
    fd_call_gone drivers c (fd_close drivers fd v).1 fd gone,
  )
    where
      gone : IsGone (slot (fd_close drivers fd v).1.fds fd)
      gone =
          subst (λ r. IsGone (slot r.1.fds fd)) (sym (fd_close_lem v fd d h o))
            (remove-IsGone v.fds fd d o.fd_slot)
