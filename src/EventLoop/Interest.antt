-- ===== src/EventLoop/Interest.antt =====
-- The calls of net/tools/epoll_server/epoll_server.cc that register for reading or writing, and that
-- change what a descriptor is watched for.
use quic_toy.Base.{ℕ, ◌-◌, length}
use quic_toy.EventLoop.{EventLoop, register_fd, modify_fd, epollin, epollout}
use Prim.Native.Nat.{bit_or}

-- ~0 is every bit of an int.
unfoldable pub modify_callback : ℕ → ℕ → EventLoop → EventLoop
unfolding modify_fd
modify_callback fd event_mask l = modify_fd fd 4_294_967_295 event_mask l

unfoldable pub stop_read : ℕ → EventLoop → EventLoop
unfolding modify_fd
stop_read fd l = modify_fd fd epollin 0 l

unfoldable pub start_read : ℕ → EventLoop → EventLoop
unfolding modify_fd
start_read fd l = modify_fd fd 0 epollin l

unfoldable pub stop_write : ℕ → EventLoop → EventLoop
unfolding modify_fd
stop_write fd l = modify_fd fd epollout 0 l

unfoldable pub start_write : ℕ → EventLoop → EventLoop
unfolding modify_fd
start_write fd l = modify_fd fd 0 epollout l

unfoldable pub register_fd_for_write : ℕ → ℕ → EventLoop → EventLoop
unfolding register_fd
register_fd_for_write fd cb l = register_fd fd cb epollout l

unfoldable pub register_fd_for_read_write : ℕ → ℕ → EventLoop → EventLoop
unfolding register_fd
register_fd_for_read_write fd cb l = register_fd fd cb (bit_or epollin epollout) l

unfoldable pub register_fd_for_read : ℕ → ℕ → EventLoop → EventLoop
unfolding register_fd
register_fd_for_read fd cb l = register_fd fd cb epollin l

-- The internal descriptor is left out.
unfoldable pub num_fds_registered : EventLoop → ℕ
num_fds_registered l = length l.cb_map - 1
