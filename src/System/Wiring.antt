-- ===== src/System/Wiring.antt =====
-- cmd/server/main.go, run: the services over one database handle, one gateway and one directory.
use order_mock_payment.Prelude.{ℕ}
use order_mock_payment.Go.Exec.{Result}
use order_mock_payment.Text.{Text, Unicode}
use order_mock_payment.Numeric.{Numeric}
use order_mock_payment.Database.World.{World, Environment}
use order_mock_payment.Order.Service as OrderModule
use order_mock_payment.Order.Repository as OrderRepository
use order_mock_payment.Auth.Jwt.{generate}
use order_mock_payment.Auth.Service as AuthModule
use order_mock_payment.Auth.Service.{PasswordHasher, TokenIssuer}
use order_mock_payment.Auth.Repository as AuthRepository
use order_mock_payment.Payment.Gateway.{mock_gateway}
use order_mock_payment.Payment.Service.{Service, OrderService}
use order_mock_payment.Payment.Repository as PaymentRepository
use order_mock_payment.Upload.Service as UploadModule
use order_mock_payment.Upload.Repository as UploadRepository
use order_mock_payment.Upload.Storage.{local_storage}

-- auth.BcryptHasher: a hash has a salt for each state of the database.
abbrev pub bcrypt_hasher :
    {D : Type 0}
    → (ℕ → Text → Result Text)
    → (Text → Text → Result (Unit {0}))
    → PasswordHasher (World D)
bcrypt_hasher hash_with compare = record {
  hash = λ password w. (hash_with w.statements password, w);
  compare = λ password hash. compare hash password;
}

module _ {D : Type 0} ⦃u : Unicode⦄ (env : Environment) where
  abbrev pub auth_service :
      (ℕ → Text → Result Text)
      → (Text → Text → Result (Unit {0}))
      → TokenIssuer (World D)
      → AuthModule.Service (World D)
  auth_service hash_with compare issuer = record {
    repo = AuthRepository.postgres_repository env;
    hasher = bcrypt_hasher hash_with compare;
    token_issuer = issuer;
  }

  -- `auth.NewHMACTokenService(cfg.JWT.Secret, cfg.JWT.TTL)` as the issuer of tokens.
  abbrev pub token_issuer : TokenIssuer (World D)
  token_issuer = record {
    generate = λ x w.
        let out = env.outside in
        (generate out.jwt out.uuid out.tokens (out.clock w.statements) x, w);
  }

  abbrev pub accounts : AuthModule.Service (World D)
  accounts = auth_service env.outside.hash_with env.outside.compare token_issuer

module _ {D : Type 0} ⦃n : Numeric D⦄ (env : Environment) where
  abbrev pub order_repo : OrderModule.Repository (World D) D
  order_repo = OrderRepository.postgres_repository env

  -- `*order.Service` as the interface that the payment service takes.
  abbrev pub order_service : OrderService (World D) D
  order_service = record {
    get = OrderModule.get order_repo;
    update_status = OrderModule.update_status order_repo;
    advance_status = OrderModule.advance_status order_repo;
  }

  abbrev pub payment_service : Service (World D) D
  payment_service = record {
    repo = PaymentRepository.postgres_repository env;
    orders = order_service;
    gateway = mock_gateway;
  }

  -- `*order.Service` as the interface that the upload service takes.
  abbrev pub upload_service : UploadModule.Service (World D) D
  upload_service = record {
    repo = UploadRepository.postgres_repository env;
    storage = local_storage env;
    orders = record { get = OrderModule.get order_repo };
    max_size = env.outside.max_size;
    detect = env.outside.detect_content_type;
    new_name = λ w. env.outside.new_name w.statements;
  }
