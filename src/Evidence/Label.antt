-- ===== src/Evidence/Label.antt =====
-- Enclave/src/Enclave_generate_evidence.cpp: the labels of the claims.
use taws.Base.{ℤ}

abbrev pub eat_profile : ℤ
eat_profile = ℤ.pos 265

abbrev pub measurement_value : ℤ
measurement_value = ℤ.pos 2

abbrev pub cnf : ℤ
cnf = ℤ.pos 8

abbrev pub cose_key : ℤ
cose_key = ℤ.pos 1

abbrev pub key_type : ℤ
key_type = ℤ.pos 1

abbrev pub curve : ℤ
curve = ℤ.negsuc 0

abbrev pub key_id : ℤ
key_id = ℤ.pos 3

abbrev pub eat_nonce : ℤ
eat_nonce = ℤ.pos 10

abbrev pub ueid : ℤ
ueid = ℤ.pos 256

abbrev pub x_label : ℤ
x_label = ℤ.negsuc 1

abbrev pub y_label : ℤ
y_label = ℤ.negsuc 2

abbrev pub oemid : ℤ
oemid = ℤ.pos 258

abbrev pub hwmodel : ℤ
hwmodel = ℤ.pos 259

abbrev pub hwversion : ℤ
hwversion = ℤ.pos 260

abbrev pub measurements : ℤ
measurements = ℤ.pos 273

abbrev pub content_type : ℤ
content_type = ℤ.pos 600

abbrev pub id_ : ℤ
id_ = ℤ.pos 1

abbrev pub algorithm : ℤ
algorithm = ℤ.pos 1
