-- ===== src/Modify/Password.antt =====
-- The line about the password that a switch of authentication writes (`block_modify_cli_1_svc_st`,
-- rpc/block_modify.c).
use gluster_block.Prelude.{◌≤◌, ◌≡◌, refl, Bool, true, false, List, [], ◌∷◌, ◌++◌, length, arith}
use mathlib.Core.List.{append-nil}
use gluster_block.Text.{Text, codes, first_token, after_char}
use gluster_block.Text.Laws.{str_cpy_of_fits, Lacks-append}
use gluster_block.Enums.Key.{key_parse}
use gluster_block.Meta.{MetaInfo, ok, stuff_meta_info}
use gluster_block.Meta.Lines.{IsLineText}
use gluster_block.Meta.Read.{IsLine}
use gluster_block.Meta.File.{IsFile, IsFile-line}
use gluster_block.Modify.Reach.{password_lines}

-- What uuid_unparse makes: a text of one line that fits the array of a password.
pub record IsPassword (pw : Text) : Type 0 where
  pub text : IsLineText pw
  pub fits : length pw ≤ 37

-- The password that the file holds when the line is written.
abbrev pub new_passwd : (auth : Bool) (uuid old : Text) → Text
new_passwd true uuid [] = uuid
new_passwd true uuid (c ∷ s) = c ∷ s
new_passwd false uuid old = []

stuff-password :
    (raw : MetaInfo) (pw : Text)
    → length pw ≤ 37
    → stuff_meta_info raw (codes "PASSWORD: " ++ pw) ≡ ok (record raw { passwd = pw })
unfolding stuff_meta_info first_token after_char key_parse
stuff-password raw pw h = rw (str_cpy_of_fits 38 pw raw.passwd h) refl

password-IsLine : (pw : Text) → IsPassword pw → IsLine (codes "PASSWORD: " ++ pw)
password-IsLine pw h = record {
  nonempty = λ p. cc;
  text = record {
    no_newline = Lacks-append 10 (codes "PASSWORD: ") pw (omega arith) h.text.no_newline;
    no_null = Lacks-append 0 (codes "PASSWORD: ") pw (omega arith) h.text.no_null;
  };
  short = omega (arith, h.fits);
}

pub line-IsFile :
    {ls : List Text} {raw : MetaInfo} (pw : Text)
    → IsFile ls raw
    → IsPassword pw
    → IsFile (ls ++ (codes "PASSWORD: " ++ pw) ∷ []) (record raw { passwd = pw })
line-IsFile {ls} {raw} pw f h =
    IsFile-line (codes "PASSWORD: " ++ pw) f (password-IsLine pw h) (stuff-password raw pw h.fits)
      refl

pub nil-IsPassword : IsPassword []
nil-IsPassword = record { text = record { no_newline = tt; no_null = tt }; fits = omega arith }

fresh-IsFile :
    {ls : List Text} {raw : MetaInfo} (uuid pw : Text)
    → raw.passwd ≡ pw
    → IsFile ls raw
    → IsPassword uuid
    → IsFile (ls ++ password_lines true uuid pw) (record raw { passwd = new_passwd true uuid pw })
fresh-IsFile uuid [] e f h = line-IsFile uuid f h
fresh-IsFile {ls} {raw} uuid (c ∷ w) e f h =
    let g : IsFile ls (record raw { passwd = c ∷ w }) = rw (← e) f in rw append-nil g

-- The file with the line about the password is a file.
pub password-IsFile :
    {ls : List Text} {raw : MetaInfo} (auth : Bool) (uuid : Text)
    → IsFile ls raw
    → IsPassword uuid
    → IsFile
        (ls ++ password_lines auth uuid raw.passwd)
        (record raw { passwd = new_passwd auth uuid raw.passwd })
password-IsFile {ls} {raw} true uuid f h = fresh-IsFile uuid raw.passwd refl f h
password-IsFile false uuid f h = line-IsFile [] f nil-IsPassword
