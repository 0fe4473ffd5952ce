-- ===== src/Mount/Replay.antt =====
-- A one-time password is accepted once.
use unfs3_raft.Base.{ℕ, Bool, not, List, Option, some, ◌==◌}
use unfs3_raft.Fs.{FilePath}
use unfs3_raft.Exports.{no_export, exports_options}
use unfs3_raft.Exports.Build.Options.{password_maxlen}
use unfs3_raft.Password.{mnt_cmd_argument}
use unfs3_raft.Server.{Config, State}
use unfs3_raft.Mount.{Caller, otp_cmd}

module _ (c : Config) (k : Caller c.backend.Os) (dpath : FilePath) where
  abbrev otp_of : List ℕ
  otp_of = (mnt_cmd_argument dpath otp_cmd password_maxlen).0

  abbrev path_of : FilePath
  path_of = (mnt_cmd_argument dpath otp_cmd password_maxlen).1

  abbrev password_of : State c → Option (List ℕ)
  password_of s = (exports_options c.export_list (some path_of) c.remote s.exports).0.password

  abbrev options_of : State c → Bool
  options_of s = not (
      (exports_options c.export_list (some path_of) c.remote s.exports).1.exports_opts == no_export)
