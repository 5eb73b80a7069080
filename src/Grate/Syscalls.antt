-- ===== src/Grate/Syscalls.antt =====
-- The numbers of lib/grate-rs/src/constants/syscall_numbers.rs that the handlers use.
use lind_wasm_example_grates.Base.{ℕ}

abbrev pub sys_read : ℕ
sys_read = 0

abbrev pub sys_write : ℕ
sys_write = 1

abbrev pub sys_open : ℕ
sys_open = 2

abbrev pub sys_close : ℕ
sys_close = 3

abbrev pub sys_lstat : ℕ
sys_lstat = 6

abbrev pub sys_lseek : ℕ
sys_lseek = 8

abbrev pub sys_mmap : ℕ
sys_mmap = 9

abbrev pub sys_munmap : ℕ
sys_munmap = 11

abbrev pub sys_pread : ℕ
sys_pread = 17

abbrev pub sys_pwrite : ℕ
sys_pwrite = 18

abbrev pub sys_readv : ℕ
sys_readv = 19

abbrev pub sys_writev : ℕ
sys_writev = 20

abbrev pub sys_access : ℕ
sys_access = 21

abbrev pub sys_dup : ℕ
sys_dup = 32

abbrev pub sys_dup2 : ℕ
sys_dup2 = 33

abbrev pub sys_socket : ℕ
sys_socket = 41

abbrev pub sys_connect : ℕ
sys_connect = 42

abbrev pub sys_accept : ℕ
sys_accept = 43

abbrev pub sys_sendto : ℕ
sys_sendto = 44

abbrev pub sys_recvfrom : ℕ
sys_recvfrom = 45

abbrev pub sys_sendmsg : ℕ
sys_sendmsg = 46

abbrev pub sys_recvmsg : ℕ
sys_recvmsg = 47

abbrev pub sys_shutdown : ℕ
sys_shutdown = 48

abbrev pub sys_bind : ℕ
sys_bind = 49

abbrev pub sys_listen : ℕ
sys_listen = 50

abbrev pub sys_clone : ℕ
sys_clone = 56

abbrev pub sys_exec : ℕ
sys_exec = 59

abbrev pub sys_exit : ℕ
sys_exit = 60

abbrev pub sys_fcntl : ℕ
sys_fcntl = 72

abbrev pub sys_fsync : ℕ
sys_fsync = 74

abbrev pub sys_fdatasync : ℕ
sys_fdatasync = 75

abbrev pub sys_truncate : ℕ
sys_truncate = 76

abbrev pub sys_ftruncate : ℕ
sys_ftruncate = 77

abbrev pub sys_getdents : ℕ
sys_getdents = 78

abbrev pub sys_getcwd : ℕ
sys_getcwd = 79

abbrev pub sys_chdir : ℕ
sys_chdir = 80

abbrev pub sys_fchdir : ℕ
sys_fchdir = 81

abbrev pub sys_rename : ℕ
sys_rename = 82

abbrev pub sys_mkdir : ℕ
sys_mkdir = 83

abbrev pub sys_rmdir : ℕ
sys_rmdir = 84

abbrev pub sys_link : ℕ
sys_link = 86

abbrev pub sys_unlink : ℕ
sys_unlink = 87

abbrev pub sys_symlink : ℕ
sys_symlink = 88

abbrev pub sys_readlink : ℕ
sys_readlink = 89

abbrev pub sys_chmod : ℕ
sys_chmod = 90

abbrev pub sys_fchmod : ℕ
sys_fchmod = 91

abbrev pub sys_chown : ℕ
sys_chown = 92

abbrev pub sys_lchown : ℕ
sys_lchown = 94

abbrev pub sys_mknod : ℕ
sys_mknod = 133

abbrev pub sys_statfs : ℕ
sys_statfs = 137

abbrev pub sys_fstatfs : ℕ
sys_fstatfs = 138

abbrev pub sys_exit_group : ℕ
sys_exit_group = 231

abbrev pub sys_openat : ℕ
sys_openat = 257

abbrev pub sys_fchownat : ℕ
sys_fchownat = 260

abbrev pub sys_newfstatat : ℕ
sys_newfstatat = 262

abbrev pub sys_unlinkat : ℕ
sys_unlinkat = 263

abbrev pub sys_symlinkat : ℕ
sys_symlinkat = 266

abbrev pub sys_readlinkat : ℕ
sys_readlinkat = 267

abbrev pub sys_fchmodat : ℕ
sys_fchmodat = 268

abbrev pub sys_faccessat : ℕ
sys_faccessat = 269

abbrev pub sys_sync_file_range : ℕ
sys_sync_file_range = 277

abbrev pub sys_utimensat : ℕ
sys_utimensat = 280

abbrev pub sys_dup3 : ℕ
sys_dup3 = 292

abbrev pub sys_preadv : ℕ
sys_preadv = 295

abbrev pub sys_pwritev : ℕ
sys_pwritev = 296

abbrev pub sys_getrandom : ℕ
sys_getrandom = 318

abbrev pub sys_statx : ℕ
sys_statx = 332

abbrev pub sys_xstat : ℕ
sys_xstat = 4

abbrev pub sys_fxstat : ℕ
sys_fxstat = 5

abbrev pub sys_register_handler : ℕ
sys_register_handler = 1001

abbrev pub sys_ioctl : ℕ
sys_ioctl = 16

abbrev pub sys_fstat : ℕ
sys_fstat = 5

abbrev pub sys_flock : ℕ
sys_flock = 73

abbrev pub sys_setsockopt : ℕ
sys_setsockopt = 54

abbrev pub sys_getsockopt : ℕ
sys_getsockopt = 55

abbrev pub sys_getsockname : ℕ
sys_getsockname = 51

abbrev pub sys_getpeername : ℕ
sys_getpeername = 52

abbrev pub sys_epoll_wait : ℕ
sys_epoll_wait = 232

abbrev pub sys_accept4 : ℕ
sys_accept4 = 288

abbrev pub sys_socketpair : ℕ
sys_socketpair = 53

abbrev pub sys_epoll_create : ℕ
sys_epoll_create = 213

abbrev pub sys_epoll_create1 : ℕ
sys_epoll_create1 = 291

abbrev pub sys_pipe : ℕ
sys_pipe = 22

abbrev pub sys_pipe2 : ℕ
sys_pipe2 = 293

abbrev pub sys_poll : ℕ
sys_poll = 7

abbrev pub sys_ppoll : ℕ
sys_ppoll = 271

abbrev pub sys_epoll_ctl : ℕ
sys_epoll_ctl = 233

abbrev pub sys_select : ℕ
sys_select = 23

abbrev pub sys_execve : ℕ
sys_execve = 59

abbrev pub sys_listxattr : ℕ
sys_listxattr = 194

abbrev pub sys_renameat : ℕ
sys_renameat = 264

abbrev pub sys_renameat2 : ℕ
sys_renameat2 = 316

abbrev pub sys_setxattr : ℕ
sys_setxattr = 188
