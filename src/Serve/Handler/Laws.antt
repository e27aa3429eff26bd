-- ===== src/Serve/Handler/Laws.antt =====
-- When the handler serves a file, and what it serves.
use mcp_media.Prelude.{
  ◌≡◌, refl, some, ℕ, false, Option, Option-cases, true, sym, inl, arith, inr, none,
}
use mcp_media.Text.{Bytes}
use mcp_media.Serve.Handler.{
  Request, or_attachment, MediaHandler, serve_stat, serve_http, Headers, content, is_disposition,
  serve_open, serve_resolved, serve_exp, Response, serve_path, headers,
}
use mcp_media.Platform.{
  Library, FileSystem, FileResult, FileInfo, ok, File, failed, not_exist, other_error,
}
use mcp_media.Sign.Clock.{Time}
use mcp_media.Prelude.Int.{ℤ}
use mcp_media.Sign.Decimal.{parse_int}
use mcp_media.Serve.Resolve.{resolve, Resolved, resolved, rejected, file_error, out_of_fuel, escape}
use mcp_media.Base64.{decode}
use mcp_media.Sign.{verify}

module _ (lib : Library) (fs : FileSystem) (now : Time) (h : MediaHandler) where
  -- All that holds when the file at `path` is served with headers `hs`.
  pub record IsServed (fuel : ℕ) (r : Request) (hs : Headers) (path : Bytes) : Type 0 where
    pub exp : ℤ
    pub exp_read : parse_int r.exp ≡ some exp
    pub shown : is_disposition (or_attachment r.d) ≡ true
    pub name : Bytes
    pub name_read : decode r.path_b64 ≡ some name
    pub verified : verify lib.mac h.secret r.path_b64 exp (or_attachment r.d) r.sig now ≡ none
    pub fenced : resolve fs fuel h.roots name ≡ resolved path
    pub file : File
    pub opened : fs.open_file path ≡ ok file
    pub info : FileInfo
    pub read : file.info ≡ ok info
    pub is_file : info.is_dir ≡ false
    pub labelled : hs ≡ headers lib fs now h path r.filename (or_attachment r.d)

  serve_stat_sound :
      (p filename d : Bytes) (s : FileResult FileInfo) {hs : Headers} {path : Bytes}
      → serve_stat lib fs now h p filename d s ≡ content hs path
      → (info : FileInfo) × (s ≡ ok info)
        × (info.is_dir ≡ false)
        × (hs ≡ headers lib fs now h p filename d)
        × (path ≡ p)
  unfolding serve_stat
  serve_stat_sound p filename d (failed e) same = absurd (ground arith)
  serve_stat_sound p filename d (ok info) same =
      (info, refl, ground arith, ground arith, ground arith)

  serve_open_sound :
      (p filename d : Bytes) (f : FileResult File) {hs : Headers} {path : Bytes}
      → serve_open lib fs now h p filename d f ≡ content hs path
      → (file : File) × (f ≡ ok file)
        × (serve_stat lib fs now h p filename d file.info ≡ content hs path)
  unfolding serve_open
  serve_open_sound p filename d (failed not_exist) same = absurd (ground arith)
  serve_open_sound p filename d (failed other_error) same = absurd (ground arith)
  serve_open_sound p filename d (ok file) same = (file, refl, same)

  serve_resolved_sound :
      (filename d : Bytes) (res : Resolved) {hs : Headers} {path : Bytes}
      → serve_resolved lib fs now h filename d res ≡ some (content hs path)
      → (p : Bytes) × (res ≡ resolved p)
        × (serve_open lib fs now h p filename d (fs.open_file p) ≡ content hs path)
  unfolding serve_resolved
  serve_resolved_sound filename d out_of_fuel same = absurd (ground arith)
  serve_resolved_sound filename d (rejected escape) same = absurd (ground arith)
  serve_resolved_sound filename d (rejected (file_error not_exist)) same = absurd (ground arith)
  serve_resolved_sound filename d (rejected (file_error other_error)) same = absurd (ground arith)
  serve_resolved_sound filename d (resolved p) same = (p, refl, ground arith)

  -- A request that passes the checks of its parameters.
  record IsAccepted (fuel : ℕ) (r : Request) (res : Option Response) : Type 0 where
    exp : ℤ
    exp_read : parse_int r.exp ≡ some exp
    shown : is_disposition (or_attachment r.d) ≡ true
    name : Bytes
    name_read : decode r.path_b64 ≡ some name
    verified : verify lib.mac h.secret r.path_b64 exp (or_attachment r.d) r.sig now ≡ none
    continued :
        res
        ≡ serve_resolved lib fs now h r.filename (or_attachment r.d) (resolve fs fuel h.roots name)

  serve_exp-IsAccepted :
      (fuel : ℕ) (r : Request) (exp : ℤ) {hs : Headers} {path : Bytes}
      → parse_int r.exp ≡ some exp
      → serve_exp lib fs now h fuel r exp ≡ some (content hs path)
      → IsAccepted fuel r (some (content hs path))
  unfolding serve_exp serve_path
  serve_exp-IsAccepted fuel r exp read same = elim (Option-cases (decode r.path_b64)) [
    | inl bad ↦ absurd (ground arith)
    | inr (name, named) ↦
        elim (Option-cases (verify lib.mac h.secret r.path_b64 exp (or_attachment r.d) r.sig now)) [
          | inr (e, refused) ↦ absurd (ground arith)
          | inl verified ↦ record {
            exp = exp;
            exp_read = read;
            shown = ground arith;
            name = name;
            name_read = named;
            verified = verified;
            continued = ground arith;
          }
        ]
  ]

  serve_http-IsAccepted :
      (fuel : ℕ) (r : Request) {hs : Headers} {path : Bytes}
      → serve_http lib fs now h fuel r ≡ some (content hs path)
      → IsAccepted fuel r (some (content hs path))
  unfolding serve_http
  serve_http-IsAccepted fuel r same = elim (Option-cases (parse_int r.exp)) [
    | inl bad ↦ absurd (ground arith)
    | inr (exp, read) ↦ serve_exp-IsAccepted fuel r exp read (ground arith)
  ]

  -- A file is served only for a request whose signature is accepted, from the path that `Resolve`
  -- returned for the decoded name, and with the headers made for that path.
  pub serve_http_sound :
      (fuel : ℕ) (r : Request) (hs : Headers) (path : Bytes)
      → serve_http lib fs now h fuel r ≡ some (content hs path)
      → IsServed fuel r hs path
  serve_http_sound fuel r hs path same =
      let a = serve_http-IsAccepted fuel r same in
      let (p, fenced, opening) =
        serve_resolved_sound r.filename (or_attachment r.d) (resolve fs fuel h.roots a.name)
          (sym a.continued) in
      let (file, opened, stating) =
        serve_open_sound p r.filename (or_attachment r.d) (fs.open_file p) opening in
      let (info, read, is_file, labelled, at_path) =
        serve_stat_sound p r.filename (or_attachment r.d) file.info stating in
      rw at_path (record {
        exp = a.exp;
        exp_read = a.exp_read;
        shown = a.shown;
        name = a.name;
        name_read = a.name_read;
        verified = a.verified;
        fenced = fenced;
        file = file;
        opened = opened;
        info = info;
        read = read;
        is_file = is_file;
        labelled = labelled;
      })
